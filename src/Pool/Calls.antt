-- ===== src/Pool/Calls.antt =====
-- proxypool.go: Next returns on every call, and an error stays until Reset.
use mathlib.Core.Path.{subst}
use proxykit_go.Base.{
  ◌-◌, true, false, Option, none, some, ltb, ◌≡◌, refl, arith, length, Bool-cases, Option-cases,
  inl, inr,
}
use proxykit_go.Pool.State.{Pool, File, PoolError}
use proxykit_go.Pool.Walk.{take_line, Taken, line, problem, next_line_locked, next}
use proxykit_go.Pool.Extends.{core, ReadsAtMost}
use proxykit_go.Pool.Rounds.{IsWalk}
use proxykit_go.Pool.Ends.{load_next_block-total}

take_line-IsWalk : (pool : Pool) → IsWalk (core pool) → IsWalk (core (take_line pool).1)
unfolding take_line
take_line-IsWalk pool fit = record {
  active = fit.active;
  block_positive = fit.block_positive;
  blocks_count = fit.blocks_count;
  blocks_bound = fit.blocks_bound;
  cursor_le = fit.cursor_le;
  blocks_le = fit.blocks_le;
  inside = fit.inside;
  rotated = fit.rotated;
}

-- A line or an error is returned, and the state is kept.
abbrev Answers : Option (Pool × Taken) → Type 0
Answers none = true ≡ false
Answers (some (p, t)) = IsWalk (core p)

next_line_locked-Answers :
    (file : File) (pool : Pool)
    → ReadsAtMost file
    → IsWalk (core pool)
    → Answers (next_line_locked file pool)
unfolding next_line_locked
next_line_locked-Answers file pool reads fit =
    elim (Bool-cases (ltb pool.line_cursor (length pool.offsets - 1))) [
      | inl left ↦ rw (left, next_line_locked) (take_line-IsWalk pool fit)
      | inr used ↦
          let (p, e, loaded, walk, _) = load_next_block-total file pool reads fit in
          elim (Option-cases e) [
            | inr (err, failed) ↦ rw (used, next_line_locked, loaded, failed) walk
            | inl fine ↦ rw (used, next_line_locked, loaded, fine) (take_line-IsWalk p walk)
          ]
    ]

-- A pool with an error gives that error.
terminal-stays :
    (pool : Pool) (e : PoolError)
    → pool.active ≡ true
    → pool.terminal ≡ some e
    → (later : File) → next later pool ≡ some (pool, problem e)
unfolding next
terminal-stays pool e active failed later = ground (arith, active, failed)

with_terminal-IsWalk :
    (pool : Pool) (e : PoolError)
    → IsWalk (core pool)
    → IsWalk (core (record pool { terminal = some e }))
with_terminal-IsWalk pool e fit = record {
  active = fit.active;
  block_positive = fit.block_positive;
  blocks_count = fit.blocks_count;
  blocks_bound = fit.blocks_bound;
  cursor_le = fit.cursor_le;
  blocks_le = fit.blocks_le;
  inside = fit.inside;
  rotated = fit.rotated;
}

-- Next returns on every call, with a line or an error, for every file whose reads return no more
-- than was asked for; it keeps the state, and an error stays: every later call repeats it, whatever
-- has become of the file.
pub next-total :
    (file : File) (pool : Pool)
    → ReadsAtMost file
    → IsWalk (core pool)
    → (p : Pool) × (t : Taken) × (next file pool ≡ some (p, t))
      × IsWalk (core p)
      × ((e : PoolError) → t ≡ problem e → (later : File) → next later p ≡ some (p, problem e))
unfolding next
next-total file pool reads fit = elim (Option-cases pool.terminal) [
  | inr (e, failed) ↦ (
    pool,
    problem e,
    terminal-stays pool e fit.active failed file,
    fit,
    λ e' same later.
        let one : e ≡ e' = cc in
        subst (λ x. next later pool ≡ some (pool, problem x)) one
          (terminal-stays pool e fit.active failed later),
  )
  | inl running ↦
      by_answer (next_line_locked file pool) refl (next_line_locked-Answers file pool reads fit)
        running
]
  where
    by_answer :
        (r : Option (Pool × Taken))
        → next_line_locked file pool ≡ r
        → Answers r
        → pool.terminal ≡ none
        → (p : Pool) × (t : Taken) × (next file pool ≡ some (p, t))
          × IsWalk (core p)
          × ((e : PoolError) → t ≡ problem e → (later : File) → next later p ≡ some (p, problem e))
    by_answer none h k running = ground (arith, k)
    by_answer (some (p, line l)) h k running =
        (p, line l, rw (fit.active, next, running, h) refl, k, λ e same later. cc)
    by_answer (some (p, problem e)) h k running = (
      record p { terminal = some e },
      problem e,
      rw (fit.active, next, running, h) refl,
      with_terminal-IsWalk p e k,
      λ e' same later.
          let one : e ≡ e' = cc in
          let stopped = record p { terminal = some e } in
          subst (λ x. next later stopped ≡ some (stopped, problem x)) one
            (terminal-stays stopped e k.active refl later),
    )

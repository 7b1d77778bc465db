-- ===== src/Pool/Lines/Ended.antt =====
-- proxypool.go: what the last round of extendLineLocked leaves in the buffer.
use mathlib.Core.Path.{subst}
use proxykit_go.Base.{
  ℕ, zero, suc, ◌+◌, ◌-◌, ◌≤◌, ◌<◌, false, ◌||◌, some, [], ◌∷◌, ◌++◌, ltb, ◌==◌, ◌≡◌, ◌≢◌, refl,
  arith, length, get_or, take, drop, sym, ap, ◌∙◌, Bool-cases, inl, inr, length-take, length-append,
}
use proxykit_go.Base.Bytes.{Bytes, index_byte}
use proxykit_go.Pool.Sizes.{newline, carriage_return}
use proxykit_go.Pool.Open.{Geometry}
use proxykit_go.Pool.State.{Pool, File}
use proxykit_go.Pool.Extend.{extended, terminate, terminated, accept_line, finish_line}
use proxykit_go.Pool.Limits.{get_or-take}
use proxykit_go.Pool.Lines.Framed.{
  unsealed, framed, IsWindow, IsWindow-take, IsWindow-append, IsWindow-framed, ending,
  terminate_lem, framed_lem, get_or-append_left, get_or-append_right,
}
use proxykit_go.Pool.Lines.Found.{IsPlain, index_byte-first}

-- The file has this content, and the pool its size.
pub record Holds (file : File) (content : Bytes) (g : Geometry) : Type 0 where
  pub size : g.file_size ≡ length content
  pub reads :
      (offset n : ℕ)
      → offset + n ≤ length content
      → (file.read_at offset n).0 ≡ take n (drop offset content)

-- The pool behind an extension: its buffer ends with the line that was open at `search`.
pub record IsExtended (content : Bytes) (start search : ℕ) (pool p : Pool) : Type 0 where
  pub window : IsWindow (framed content) start p.buffer
  pub longer : search < length p.buffer
  pub closed : get_or p.buffer (length p.buffer - 1) 0 ≡ newline
  pub plain : IsPlain p.buffer search (length p.buffer - 1)
  pub same : p.offsets ≡ pool.offsets
  pub carried : (p.carried ≡ pool.carried) × (p.carried_block ≡ pool.carried_block)
  pub geometry : p.geometry ≡ pool.geometry
  pub continued :
      (p.continuation_start ≡ pool.continuation_start)
      × (p.continuation_end ≡ pool.continuation_end)
  pub flag :
      p.cr ≡ false → (pool.cr ≡ false) × (get_or p.buffer (length p.buffer - 2) 0 ≢ carriage_return)

-- The pool before a round: no line feed at `search` or behind it.
pub record IsOpen (content : Bytes) (start search : ℕ) (pool : Pool) : Type 0 where
  pub window : IsWindow (unsealed content) start pool.buffer
  pub within : search < length pool.buffer
  pub some_bytes : 0 < length pool.buffer
  pub plain : IsPlain pool.buffer search (length pool.buffer)

pub accept_line-extended :
    (start line_start : ℕ) (pool accepted p : Pool)
    → accept_line start line_start pool accepted ≡ extended p
    → accepted ≡ p
unfolding accept_line
accept_line-extended start line_start pool accepted p h = ground (arith, h)

pub finish_line-IsExtended :
    (content : Bytes) (start line_start search before : ℕ) (pool p : Pool)
    → IsWindow (unsealed content) start pool.buffer
    → search ≤ before
    → before < length pool.buffer
    → get_or pool.buffer before 0 ≡ newline
    → IsPlain pool.buffer search before
    → finish_line start line_start before pool ≡ extended p
    → IsExtended content start search pool p
unfolding finish_line
finish_line-IsExtended content start line_start search before pool p window le lt feed plain h =
    let cut = record pool { buffer = take (before + 1) pool.buffer } in
    let accepted = record cut {
      cr = cut.cr || get_or cut.buffer (before - 1) 0 == carriage_return;
    } in
    let len : length (take (before + 1) pool.buffer) ≡ before + 1 =
      omega (arith, length-take (before + 1) pool.buffer, lt) in
    let last : before + 1 - 1 ≡ before = omega arith in
    let last_but_one : before + 1 - 2 ≡ before - 1 = omega arith in
    subst (λ p. IsExtended content start search pool p)
      (accept_line-extended start line_start cut accepted p h)
      (record {
        window =
            IsWindow-framed content start _
              (IsWindow-take (unsealed content) start (before + 1) pool.buffer window);
        longer = omega (arith, len, le);
        closed = rw (len, last, get_or-take (before + 1) before pool.buffer (omega arith)) feed;
        plain = λ q lo hi e.
            plain q lo (omega (arith, hi, len))
              (sym (get_or-take (before + 1) q pool.buffer (omega (arith, hi, len))) ∙ e);
        same = refl;
        carried = (refl, refl);
        geometry = refl;
        continued = (refl, refl);
        flag = λ f. rw (len, last_but_one) (ground (arith, f));
      })

-- A stretch without line feeds that goes on.
pub IsPlain-joined :
    (buffer tail : Bytes) (lo n : ℕ)
    → IsPlain buffer lo (length buffer)
    → IsPlain tail 0 n
    → IsPlain (buffer ++ tail) lo (length buffer + n)
IsPlain-joined buffer tail lo n plain quiet q ge lt e = elim (Bool-cases (ltb q (length buffer))) [
  | inl inner ↦
      plain q ge (ground (arith, inner))
        (sym (get_or-append_left buffer tail q (ground (arith, inner))) ∙ e)
  | inr outer ↦
      let le : length buffer ≤ q = ground (arith, outer) in
      let at : length buffer + (q - length buffer) ≡ q = omega (arith, le) in
      quiet (q - length buffer) (omega arith) (omega (arith, lt, le)) (
        sym (get_or-append_right buffer tail (q - length buffer))
        ∙ ap (λ k. get_or (buffer ++ tail) k 0) at
        ∙ e)
]

-- The last line of the file is ended.
pub terminated-IsExtended :
    (content : Bytes) (start search : ℕ) (pool : Pool)
    → IsOpen content start search pool
    → start + length pool.buffer ≡ length (unsealed content)
    → IsExtended content start search pool (terminated pool)
terminated-IsExtended content start search pool open_line ends =
    let buffer = pool.buffer in
    let last = length buffer - 1 in
    let behind : length buffer - 1 + 1 ≡ length buffer = omega (arith, open_line.some_bytes) in
    let at_end : start + (length buffer - 1) ≡ length content =
      omega (arith, ends, open_line.some_bytes) in
    let total : length (unsealed content) - 1 ≡ length content = omega arith in
    let quiet : get_or buffer (length buffer - 1) 0 ≢ newline =
      open_line.plain (length buffer - 1) (omega (arith, open_line.within))
        (omega (arith, open_line.some_bytes)) in
    let same_last : get_or buffer (length buffer - 1) 0
        ≡ get_or (unsealed content) (length content) 0 =
      open_line.window.same (length buffer - 1) (omega (arith, open_line.some_bytes))
      ∙ ap (λ k. get_or (unsealed content) k 0) at_end in
    let same_ending : ending buffer ≡ ending (unsealed content) = rw (total, same_last) refl in
    let goes_on = framed_lem content (λ e. quiet (same_last ∙ e)) in
    let tail : IsWindow (framed content) (start + length buffer) (ending buffer) =
      rw (goes_on, same_ending, ends)
        (record {
          inside = omega (arith, length-append (unsealed content) (ending (unsealed content)));
          same = λ i h. sym (get_or-append_right (unsealed content) (ending (unsealed content)) i);
        }) in
    let whole =
      IsWindow-append (framed content) start buffer (ending buffer)
        (IsWindow-framed content start buffer open_line.window) tail in
    let appended = terminate_lem buffer in
    elim (Bool-cases (get_or buffer (length buffer - 1) 0 == carriage_return)) [
      | inl returns ↦
          let two : ending buffer ≡ carriage_return ∷ newline ∷ [] = rw returns refl in
          let len : length (terminate buffer) ≡ length buffer + 2 =
            rw (appended, two) (length-append buffer (carriage_return ∷ newline ∷ [])) in
          let step : length buffer + 2 - 1 ≡ length buffer + 1 = omega arith in
          record {
            window = rw appended whole;
            longer = omega (arith, len, open_line.within);
            closed =
                rw (len, step, appended, two)
                  (get_or-append_right buffer (carriage_return ∷ newline ∷ []) 1);
            plain =
                rw (len, step, appended, two)
                  (IsPlain-joined buffer (carriage_return ∷ newline ∷ []) search 1 open_line.plain
                    (λ q lo hi. first_plain q hi));
            same = refl;
            carried = (refl, refl);
            geometry = refl;
            continued = (refl, refl);
            flag = λ f. absurd (ground (arith, f, returns));
          }
      | inr plain ↦
          let one : ending buffer ≡ newline ∷ [] = rw plain refl in
          let len : length (terminate buffer) ≡ length buffer + 1 =
            rw (appended, one) (length-append buffer (newline ∷ [])) in
          let step : length buffer + 1 - 1 ≡ length buffer + 0 = omega arith in
          let step_two : length buffer + 1 - 2 ≡ length buffer - 1 = omega arith in
          record {
            window = rw appended whole;
            longer = omega (arith, len, open_line.within);
            closed = rw (len, step, appended, one) (get_or-append_right buffer (newline ∷ []) 0);
            plain =
                rw (len, step, appended, one)
                  (IsPlain-joined buffer (newline ∷ []) search 0 open_line.plain
                    (λ q lo hi. absurd (omega (arith, hi))));
            same = refl;
            carried = (refl, refl);
            geometry = refl;
            continued = (refl, refl);
            flag = λ f. (
              ground (arith, f, plain),
              rw
                  (
                    len,
                    step_two,
                    appended,
                    get_or-append_left buffer (ending buffer) (length buffer - 1)
                        (omega (arith, open_line.some_bytes)),
                  )
                  (ground (arith, plain)),
            );
          }
    ]
  where
    first_plain : (q : ℕ) → q < 1 → get_or (carriage_return ∷ newline ∷ []) q 0 ≢ newline
    first_plain zero h e = ground (arith, e)
    first_plain (suc q) h e = omega (arith, h)

pub accept_line-terminated :
    (content : Bytes) (start line_start search : ℕ) (pool p : Pool)
    → IsOpen content start search pool
    → start + length pool.buffer ≡ length (unsealed content)
    → accept_line start line_start pool (terminated pool) ≡ extended p
    → IsExtended content start search pool p
accept_line-terminated content start line_start search pool p open_line ends h =
    subst (λ p. IsExtended content start search pool p)
      (accept_line-extended start line_start pool (terminated pool) p h)
      (terminated-IsExtended content start search pool open_line ends)

-- Bytes without a line feed are added.
pub IsOpen-grown :
    (content : Bytes) (start search : ℕ) (pool : Pool) (got : Bytes)
    → IsOpen content start search pool
    → IsWindow (unsealed content) (start + length pool.buffer) got
    → IsPlain got 0 (length got)
    → IsOpen content start search (record pool { buffer = pool.buffer ++ got })
IsOpen-grown content start search pool got open_line window quiet =
    let len = length-append pool.buffer got in
    record {
      window = IsWindow-append (unsealed content) start pool.buffer got open_line.window window;
      within = omega (arith, len, open_line.within);
      some_bytes = omega (arith, len, open_line.some_bytes);
      plain = rw len (IsPlain-joined pool.buffer got search (length got) open_line.plain quiet);
    }

pub IsExtended-same :
    (content : Bytes) (start search : ℕ) (pool p : Pool) (buffer : Bytes)
    → IsExtended content start search (record pool { buffer = buffer }) p
    → IsExtended content start search pool p
IsExtended-same content start search pool p buffer x = record {
  window = x.window;
  longer = x.longer;
  closed = x.closed;
  plain = x.plain;
  same = x.same;
  carried = x.carried;
  geometry = x.geometry;
  continued = x.continued;
  flag = x.flag;
}

-- A read that brings a line feed.
pub finish_line-grown :
    (content : Bytes) (start line_start search i : ℕ) (pool p : Pool) (got : Bytes)
    → IsOpen content start search pool
    → IsWindow (unsealed content) (start + length pool.buffer) got
    → index_byte got newline ≡ some i
    → finish_line start line_start
        (length pool.buffer + i)
        (record pool { buffer = pool.buffer ++ got })
      ≡ extended p
    → IsExtended content start search pool p
finish_line-grown content start line_start search i pool p got open_line window found h =
    let (lt, feed, quiet) = index_byte-first got i found in
    let grown = record pool { buffer = pool.buffer ++ got } in
    let x =
      finish_line-IsExtended content start line_start search (length pool.buffer + i) grown p
        (IsWindow-append (unsealed content) start pool.buffer got open_line.window window)
        (omega (arith, open_line.within)) (omega (arith, lt, length-append pool.buffer got))
        (get_or-append_right pool.buffer got i ∙ feed)
        (IsPlain-joined pool.buffer got search i open_line.plain quiet) h in
    IsExtended-same content start search pool p (pool.buffer ++ got) x

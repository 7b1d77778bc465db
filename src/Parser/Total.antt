-- ===== src/Parser/Total.antt =====
-- The loop of parseInto ends: each round goes on to a later instruction of a compiled plan.
use proxykit_go.Base.{
  ℕ, zero, suc, ◌+◌, ◌<◌, Bool, true, ◌&&◌, ◌||◌, Option, none, some, List, [], ◌∷◌, leb, ◌==◌,
  length, get_elem?, ◌≡◌, ◌≢◌, refl, arith, Option-cases, inl, inr, ◌⊎◌,
}
use mathlib.Core.Path.{subst}
use proxykit_go.Proxy.Record.{zero_proxy}
use proxykit_go.Base.Bytes.{Bytes}
use proxykit_go.Parser.Errors.{ParseError, scheme_not_parsed, Outcome}
use proxykit_go.Parser.Format.{
  ParseOp, Parse, ParserKind, generic, compiled, detect_parser_kind, look_ahead, resolve_op,
  special_parse, strict_scheme_host_port, strict_full_credentials, resolve, new, new_generic,
  scan_format,
}
use proxykit_go.Parser.Field.{
  Cursor, Step, goto, halt, step_delimiter, step_credential, step_found, step_captured, step_op,
}
use proxykit_go.Parser.Generic.{
  Shortcut, LoopResult, done, failed, out_of_rounds, run_plan, begin, finish, parse_generic,
}
use proxykit_go.Parser.Sound.{parse_generic-IsChecked}
use proxykit_go.Proxy.Validate.{IsProxy}

abbrev at_or_behind : ℕ → Option ℕ → Bool
at_or_behind i none = true
at_or_behind i (some e) = leb i e

-- The credentials of a field number `i` end behind it.
abbrev pub ends_ahead : ℕ → ParseOp → Bool
ends_ahead i op = op.field == 0 || at_or_behind i op.credential_end

abbrev pub all_end_ahead : ℕ → List ParseOp → Bool
all_end_ahead i [] = true
all_end_ahead i (op ∷ ops) = ends_ahead i op && all_end_ahead (i + 1) ops

resolve_lem :
    (ops : List ParseOp) (i : ℕ)
    → (all_end_ahead i (resolve i ops).0 ≡ true) × (at_or_behind i (resolve i ops).1.at_end ≡ true)
unfolding resolve resolve_op look_ahead
resolve_lem [] i = (refl, refl)
resolve_lem (op ∷ ops) i =
    let (a, b) = resolve_lem ops (i + 1) in (ground (arith, a, b), ground (arith, a, b))

-- What the loop needs of the plan.
abbrev pub IsForward : Parse → Type 0
IsForward pp = all_end_ahead 0 pp.plan ≡ true

get_elem?-ends_ahead :
    (ops : List ParseOp) (i k : ℕ) (op : ParseOp)
    → all_end_ahead i ops ≡ true
    → get_elem? ops k ≡ some op
    → ends_ahead (i + k) op ≡ true
get_elem?-ends_ahead [] i k op h e = cc
get_elem?-ends_ahead (o ∷ ops) i zero op h e = ground arith
get_elem?-ends_ahead (o ∷ ops) i (suc k) op h e =
    let rest : all_end_ahead (i + 1) ops ≡ true = ground arith in
    let found = get_elem?-ends_ahead ops (i + 1) k op rest e in ground (arith, found)

-- A round goes on to a later instruction.
Moves : ℕ → Step → Type 0
Moves i (goto j c) = i < j
Moves i (halt e c) = Unit

step_op-Moves :
    (pp : Parse) (input : Bytes) (i : ℕ) (op : ParseOp) (c : Cursor)
    → ends_ahead i op ≡ true
    → Moves i (step_op pp input i op c)
unfolding Moves step_op step_delimiter step_credential step_found step_captured
step_op-Moves pp input i op c h = ground arith

get_elem?-bound :
    (ops : List ParseOp) (k : ℕ) (op : ParseOp) → get_elem? ops k ≡ some op → k < length ops
get_elem?-bound [] k op e = cc
get_elem?-bound (o ∷ ops) zero op e = omega arith
get_elem?-bound (o ∷ ops) (suc k) op e = let h = get_elem?-bound ops k op e in omega arith

Step-cases :
    (s : Step)
    → ((j : ℕ) × (c : Cursor) × (s ≡ goto j c)) ⊎ ((e : ParseError) × (c : Cursor) × (s ≡ halt e c))
Step-cases (goto j c) = inl (j, c, refl)
Step-cases (halt e c) = inr (e, c, refl)

run_plan-total :
    (rounds : ℕ) (pp : Parse) (input : Bytes) (i : ℕ) (c : Cursor)
    → IsForward pp
    → 0 < rounds
    → length pp.plan < rounds + i
    → run_plan rounds pp input i c ≢ out_of_rounds
unfolding run_plan Moves
run_plan-total zero pp input i c f pos h r = omega arith
run_plan-total (suc rounds) pp input i c f pos h r = elim (Option-cases (get_elem? pp.plan i)) [
  | inl e ↦ cc
  | inr (op, e) ↦
      let zero_add : 0 + i ≡ i = omega arith in
      let in_plan : ends_ahead i op ≡ true =
        subst (λ k. ends_ahead k op ≡ true) zero_add (get_elem?-ends_ahead pp.plan 0 i op f e) in
      let moves = step_op-Moves pp input i op c in_plan in
      let bound = get_elem?-bound pp.plan i op e in
      elim (Step-cases (step_op pp input i op c)) [
        | inr (err, c', s) ↦ cc
        | inl (j, c', s) ↦
            let ahead : i < j = subst (Moves i) s moves in
            run_plan-total rounds pp input j c' f (omega arith) (omega arith)
              (ground (arith, r, e, s))
      ]
]

new_generic-IsForward :
    (format : Bytes) (strict : Bool) {pp : Parse}
    → new_generic format strict ≡ compiled pp
    → IsForward pp
unfolding new_generic
new_generic-IsForward format strict {pp} h =
    let forward = resolve_lem (scan_format (length format) 0 format) 0 in ground (arith, forward)

special_parse-IsForward :
    (kind : ParserKind) {pp : Parse} → compiled (special_parse kind) ≡ compiled pp → IsForward pp
special_parse-IsForward kind {pp} h = let e : special_parse kind ≡ pp = cc in subst IsForward e refl

new-IsForward :
    (format : Bytes) (strict : Bool) {pp : Parse} → new format strict ≡ compiled pp → IsForward pp
unfolding new
new-IsForward format strict {pp} h = by_kind (detect_parser_kind format strict) refl
  where
    by_kind : (k : ParserKind) → detect_parser_kind format strict ≡ k → IsForward pp
    by_kind generic e =
        let compiles : new_generic format strict ≡ compiled pp = ground (arith, e, h) in
        new_generic-IsForward format strict compiles
    by_kind strict_scheme_host_port e =
        let compiles : compiled (special_parse strict_scheme_host_port) ≡ compiled pp =
          ground (arith, e, h) in
        special_parse-IsForward strict_scheme_host_port compiles
    by_kind strict_full_credentials e =
        let compiles : compiled (special_parse strict_full_credentials) ≡ compiled pp =
          ground (arith, e, h) in
        special_parse-IsForward strict_full_credentials compiles

finish-total :
    (shortcut : Shortcut) (pp : Parse) (input : Bytes) (r : LoopResult)
    → r ≢ out_of_rounds
    → (o : Outcome) × (finish shortcut pp input r ≡ some o)
unfolding finish
finish-total shortcut pp input (done c) n = (_, refl)
finish-total shortcut pp input (failed e c) n = (_, refl)
finish-total shortcut pp input out_of_rounds n = elim (n refl) [ ]

parse_generic-total :
    (shortcut : Shortcut) (pp : Parse) (input : Bytes)
    → IsForward pp
    → (o : Outcome) × (parse_generic shortcut pp input ≡ some o)
unfolding parse_generic
parse_generic-total shortcut pp input f = elim (Option-cases (begin pp input)) [
  | inl b ↦
      (record { proxy = zero_proxy; error = some scheme_not_parsed }, rw (b, parse_generic) refl)
  | inr (c, b) ↦
      let ends = run_plan-total (suc (length pp.plan)) pp input 0 c f (omega arith) (omega arith) in
      let (o, e) =
        finish-total shortcut pp input (run_plan (suc (length pp.plan)) pp input 0 c) ends in
      (o, rw (b, parse_generic) e)
]

-- For a parser that New compiles, an input without an index and whatever isValidFast answers: the loop
-- of parseInto ends within one round more than the plan has instructions, and parseInto, behind its
-- switch on the special parsers, returns; without an error only if isValidFast has accepted the proxy or
-- its fields are a usable endpoint.
pub new-parse_generic :
    (shortcut : Shortcut) (format : Bytes) (strict : Bool) {pp : Parse} (input : Bytes)
    → new format strict ≡ compiled pp
    → ((c : Cursor) → run_plan (suc (length pp.plan)) pp input 0 c ≢ out_of_rounds)
      × ((o : Outcome) × (parse_generic shortcut pp input ≡ some o)
          × (o.error ≡ none → (shortcut input o.proxy ≡ true) ⊎ IsProxy o.proxy))
new-parse_generic shortcut format strict {pp} input h =
    let forward = new-IsForward format strict h in
    let (o, e) = parse_generic-total shortcut pp input forward in
    (
      λ c. run_plan-total (suc (length pp.plan)) pp input 0 c forward (omega arith) (omega arith),
      (o, e, parse_generic-IsChecked shortcut pp input e),
    )

-- ===== src/Parser/Sound.antt =====
-- proxyparser.go: a proxy that the compiled plan reads without an error has been checked.
use proxykit_go.Base.{
  suc, length, true, none, some, ◌≡◌, ◌⊎◌, sym, arith, Option-cases, Bool-cases, inl, inr,
}
use mathlib.Core.Path.{subst}
use proxykit_go.Base.Bytes.{Bytes}
use proxykit_go.Proxy.Validate.{validate, validate_iff, IsProxy}
use proxykit_go.Parser.Errors.{Outcome}
use proxykit_go.Parser.Format.{Parse}
use proxykit_go.Parser.Field.{Cursor}
use proxykit_go.Parser.Generic.{
  Shortcut, LoopResult, done, failed, out_of_rounds, conclude, finish, begin, parse_generic,
  run_plan,
}

-- A result without an error holds a proxy that the shortcut or Validate has accepted.
abbrev pub IsChecked : Shortcut → Bytes → Outcome → Type 0
IsChecked shortcut input o = o.error ≡ none → (shortcut input o.proxy ≡ true) ⊎ IsProxy o.proxy

conclude-IsChecked :
    (shortcut : Shortcut) (pp : Parse) (input : Bytes) (c : Cursor)
    → IsChecked shortcut input (conclude shortcut pp input c)
unfolding conclude
conclude-IsChecked shortcut pp input c h = elim (Bool-cases (shortcut input c.proxy)) [
  | inl answers ↦ inl (ground (arith, h, answers))
  | inr silent ↦ elim (Option-cases (validate (some c.proxy))) [
    | inl valid ↦
        let same : (conclude shortcut pp input c).proxy ≡ c.proxy =
          ground (arith, h, silent, valid) in
        inr (subst (λ p. IsProxy p) (sym same) ((validate_iff c.proxy).0 valid))
    | inr (e, invalid) ↦ absurd (ground (arith, h, silent, invalid))
  ]
]

finish-IsChecked :
    (shortcut : Shortcut) (pp : Parse) (input : Bytes) (r : LoopResult) {o : Outcome}
    → finish shortcut pp input r ≡ some o
    → IsChecked shortcut input o
unfolding finish
finish-IsChecked shortcut pp input (done c) {o} h =
    let e : conclude shortcut pp input c ≡ o = cc in
    subst (IsChecked shortcut input) e (conclude-IsChecked shortcut pp input c)
finish-IsChecked shortcut pp input (failed e c) h = λ clean. absurd (ground (arith, h, clean))
finish-IsChecked shortcut pp input out_of_rounds h = cc

pub parse_generic-IsChecked :
    (shortcut : Shortcut) (pp : Parse) (input : Bytes) {o : Outcome}
    → parse_generic shortcut pp input ≡ some o
    → IsChecked shortcut input o
unfolding parse_generic
parse_generic-IsChecked shortcut pp input {o} h = elim (Option-cases (begin pp input)) [
  | inl b ↦ λ clean. absurd (ground (arith, h, b, clean))
  | inr (c, b) ↦
      finish-IsChecked shortcut pp input (run_plan (suc (length pp.plan)) pp input 0 c)
        (ground (arith, h, b))
]

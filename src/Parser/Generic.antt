-- ===== src/Parser/Generic.antt =====
-- proxyparser.go: parseInto for a compiled plan, behind its switch on the special parsers, where the
-- input has no index. What isValidFast answers is an argument.
use proxykit_go.Base.{
  ℕ, zero, suc, ◌+◌, Bool, false, not, ◌&&◌, ◌||◌, Option, none, some, [], ltb, if◌then◌else◌,
  length, get_elem?, take, drop,
}
use proxykit_go.Base.Bytes.{Bytes, codes, bytes_eq, index}
use proxykit_go.Proxy.Scheme.{is_valid_scheme}
use proxykit_go.Proxy.Record.{Proxy, zero_proxy}
use proxykit_go.Proxy.Validate.{validate, invalid_scheme, invalid_host, invalid_port}
use proxykit_go.Parser.Errors.{
  ParseError, Outcome, unexpected_trail, scheme_not_parsed, host_not_parsed, invalid_proxy_format,
  captured_scheme, wrap_error,
}
use proxykit_go.Parser.Format.{Parse}
use proxykit_go.Parser.Field.{Cursor, goto, halt, step_op}

-- The cursor behind the loop, or an error.
pub data LoopResult : Type 0 where
  done : Cursor → LoopResult
  failed : ParseError → Cursor → LoopResult
  out_of_rounds : LoopResult

-- The loop over the plan, from instruction `i` on; each round goes on to a later instruction.
unfoldable pub run_plan : ℕ → Parse → Bytes → ℕ → Cursor → LoopResult
run_plan zero pp input i c = out_of_rounds
run_plan (suc rounds) pp input i c = elim (get_elem? pp.plan i) [
  | none ↦ done c
  | some op ↦ elim (step_op pp input i op c) [
    | halt e c' ↦ failed e c'
    | goto j c' ↦ run_plan rounds pp input j c'
  ]
]

abbrev pub start_cursor : Proxy → ℕ → Bool → Cursor
start_cursor p pos scheme_parsed = record {
  proxy = p;
  input_pos = pos;
  host_start = none;
  host_end = 0;
  host_parsed = false;
  scheme_parsed = scheme_parsed;
  empty_host = false;
  empty_port = false;
}

-- The scheme that a lenient parser reads where its format has none; `none` if there is no `://`.
unfoldable pub begin : Parse → Bytes → Option Cursor
begin pp input =
    if not pp.strict && not pp.has_scheme
    then elim (index input (codes "://")) [
      | none ↦ none
      | some idx ↦
          let scheme = captured_scheme (take idx input) in
          some (
            start_cursor (record zero_proxy { scheme = scheme }) (idx + 3)
              (not (bytes_eq scheme [])))
    ]
    else some (start_cursor zero_proxy 0 false)

-- The errors of a strict parser behind the loop, before the proxy is validated.
unfoldable pub strict_error : Bytes → Cursor → Option ParseError
strict_error input c =
    if ltb c.input_pos (length input)
    then some (unexpected_trail (drop c.input_pos input))
    else if c.empty_host || c.empty_port
    then some (
        invalid_proxy_format (
          some (
            if not (is_valid_scheme c.proxy.scheme)
            then invalid_scheme
            else if bytes_eq c.proxy.host []
            then invalid_host
            else if c.empty_port
            then invalid_port
            else invalid_host)))
    else none

-- The errors of a lenient parser behind the loop.
unfoldable pub lenient_error : Cursor → Option ParseError
lenient_error c =
    if not c.scheme_parsed && bytes_eq c.proxy.scheme []
    then some scheme_not_parsed
    else if not c.host_parsed || bytes_eq c.proxy.host []
    then some host_not_parsed
    else none

-- What `fast && isValidFast(...)` answers for the input and the proxy.
abbrev pub Shortcut : Type 0
Shortcut = Bytes → Proxy → Bool

-- What parseInto does behind the loop.
unfoldable pub conclude : Shortcut → Parse → Bytes → Cursor → Outcome
conclude shortcut pp input c = elim (if pp.strict then strict_error input c else lenient_error c) [
  | some e ↦ record { proxy = c.proxy; error = some e }
  | none ↦
      if shortcut input c.proxy
      then record { proxy = c.proxy; error = none }
      else elim (validate (some c.proxy)) [
        | some e ↦ record { proxy = c.proxy; error = some (wrap_error e) }
        | none ↦ record { proxy = c.proxy; error = none }
      ]
]

-- The result of the loop. It does not run out of rounds.
unfoldable pub finish : Shortcut → Parse → Bytes → LoopResult → Option Outcome
finish shortcut pp input (done c) = some (conclude shortcut pp input c)
finish shortcut pp input (failed e c) = some (record { proxy = c.proxy; error = some e })
finish shortcut pp input out_of_rounds = none

-- parseInto behind its switch on the kind of parser, for an input that has no index; `none` would mean
-- that the rounds ran out.
unfoldable pub parse_generic : Shortcut → Parse → Bytes → Option Outcome
parse_generic shortcut pp input = elim (begin pp input) [
  | none ↦ some (record { proxy = zero_proxy; error = some scheme_not_parsed })
  | some c ↦ finish shortcut pp input (run_plan (suc (length pp.plan)) pp input 0 c)
]

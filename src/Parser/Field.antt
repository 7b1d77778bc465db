-- ===== src/Parser/Field.antt =====
-- proxyparser.go: one instruction of the plan, as parseInto's loop carries it out with no
-- structural index.
use proxykit_go.Base.{
  ℕ, ◌+◌, ◌-◌, Bool, true, false, not, ◌&&◌, ◌||◌, Option, none, some, [], ◌∷◌, ◌++◌, ltb, leb,
  ◌==◌, if◌then◌else◌, length, get_or, get_elem?, take, drop,
}
use proxykit_go.Base.Bytes.{Bytes, bytes_eq, index_byte, index}
use proxykit_go.Proxy.Record.{Proxy}
use proxykit_go.Parser.Errors.{ParseError, mismatch_delim, subseq_delim_not_found, assign_field}
use proxykit_go.Parser.Format.{ParseOp, Parse, slice}

-- The variables of parseInto. `host_start` is -1 as `none`.
pub record Cursor : Type 0 where
  pub proxy : Proxy
  pub input_pos : ℕ
  pub host_start : Option ℕ
  pub host_end : ℕ
  pub host_parsed : Bool
  pub scheme_parsed : Bool
  pub empty_host : Bool
  pub empty_port : Bool

-- The instruction to carry out next, or an error.
pub data Step : Type 0 where
  goto : ℕ → Cursor → Step
  halt : ParseError → Cursor → Step

-- The text of an instruction's delimiter.
abbrev pub delimiter : Parse → ParseOp → Bytes
delimiter pp op = slice pp.format op.delimiter_start (op.delimiter_start + op.delimiter_length)

-- Whether the input goes on with the delimiter.
unfoldable pub delimiter_matches : Parse → Bytes → ParseOp → Cursor → Bool
delimiter_matches pp input op c =
    leb op.delimiter_length (length input - c.input_pos)
    && (if op.delimiter_length == 1
        then get_or input c.input_pos 0 == op.delimiter_byte
        else bytes_eq (slice input c.input_pos (c.input_pos + op.delimiter_length))
            (delimiter pp op))

-- The case `op.field == 0`.
unfoldable pub step_delimiter : Parse → Bytes → ℕ → ParseOp → Cursor → Step
step_delimiter pp input i op c =
    if delimiter_matches pp input op c
    then goto (i + 1) (record c { input_pos = c.input_pos + op.delimiter_length })
    else if pp.strict
    then halt (mismatch_delim (delimiter pp op) c.input_pos) c
    else goto (i + 1) c

-- Where the delimiter behind the field begins, counted from the cursor; `none` is -1. A host in
-- brackets is passed over first.
unfoldable pub find_delimiter : Parse → Bytes → ParseOp → ℕ → Option ℕ
find_delimiter pp input op start =
    let tail = drop start input in
    let skip : ℕ = elim (index_byte tail b']') [ none ↦ 0 | some j ↦ j + 1 ] in
    if op.delimiter_length == 0
    then none
    else if op.field == b'h' && ltb start (length input) && get_or input start 0 == b'['
    then elim (index (drop skip tail) (delimiter pp op)) [ none ↦ none | some j ↦ some (j + skip) ]
    else if op.delimiter_length == 1
    then index_byte tail op.delimiter_byte
    else index tail (delimiter pp op)

-- The tests for a username without a password, `user@`, behind the search for the delimiter.
unfoldable pub is_bare_username : Parse → Bytes → ℕ → ParseOp → ℕ → ℕ → Option ℕ → Bool
is_bare_username pp input i op start at none = false
is_bare_username pp input i op start at (some idx) =
    op.field == b'u'
    && op.delimiter_byte == b':'
    && elim op.credential_end [ none ↦ false | some e ↦ e == i + 3 ]
    && elim (get_elem? pp.plan (i + 2)) [ none ↦ false | some o ↦ o.field == b'p' ]
    && ltb at idx
    && elim (index_byte (drop (start + idx + 1) input) b'@') [ none ↦ true | some _ ↦ false ]

-- The lenient cases where the delimiter is not found.
unfoldable pub capture_rest : Bytes → ParseOp → Cursor → Cursor
capture_rest input op c =
    let start = c.input_pos in
    let rest = drop start input in
    if op.field == b'h'
    then record c {
      proxy = assign_field b'h' rest c.proxy;
      host_start = some start;
      host_end = length input;
      host_parsed = c.host_parsed || ltb start (length input);
      input_pos = length input;
    }
    else if op.field == b'u'
    then elim (index_byte rest b'@') [
      | some at ↦ record c {
        proxy = assign_field b'u' (take at rest) c.proxy;
        input_pos = start + at;
      }
      | none ↦
          if op.delimiter_length == 1 && op.delimiter_byte == b':'
          then record c { proxy = assign_field b'u' rest c.proxy; input_pos = length input }
          else c
    ]
    else if op.field == b'p'
    then elim (index_byte rest b'@') [
      | none ↦ c
      | some at ↦
          if at == 0
          then record c { proxy = assign_field b'p' [] c.proxy }
          else record c { proxy = assign_field b'p' (take at rest) c.proxy; input_pos = start + at }
    ]
    else record c { proxy = assign_field op.field rest c.proxy; input_pos = length input }

-- The host and port of a port that stands right behind its host and a colon are one piece.
abbrev pub is_adjacent : Bytes → Cursor → ℕ → Bool
is_adjacent input c start = elim c.host_start [
  | none ↦ false
  | some _ ↦ c.host_end + 1 == start && get_or input c.host_end 0 == b':'
]

abbrev pub host_from : Cursor → ℕ
host_from c = elim c.host_start [ none ↦ 0 | some s ↦ s ]

-- The assignment of a captured value, which ends at `stop`.
unfoldable pub capture : Bytes → ParseOp → ℕ → Cursor → Cursor
capture input op stop c =
    let start = c.input_pos in
    let value = slice input start stop in
    if op.field == b'h'
    then record c {
      proxy = record c.proxy { host = value };
      empty_host = c.empty_host || bytes_eq value [];
      host_start = some start;
      host_end = stop;
      host_parsed = not (bytes_eq value []);
      input_pos = stop;
    }
    else if op.field == b'd'
    then record c {
      proxy = record c.proxy {
        host =
            if is_adjacent input c start
            then slice input (host_from c) stop
            else if bytes_eq c.proxy.host []
            then value
            else if not (bytes_eq value [])
            then c.proxy.host ++ (b':' ∷ value)
            else c.proxy.host;
      };
      empty_port = c.empty_port || bytes_eq value [];
      input_pos = stop;
    }
    else record c {
      proxy = assign_field op.field value c.proxy;
      scheme_parsed = c.scheme_parsed || op.field == b't' && not (bytes_eq value []);
      input_pos = stop;
    }

-- The delimiter behind the captured value is passed over, with its instruction.
unfoldable pub step_captured : ℕ → ParseOp → Cursor → Step
step_captured i op c =
    if op.consume_delimiter
    then goto (i + 2) (record c { input_pos = c.input_pos + op.delimiter_length })
    else goto (i + 1) c

-- A field whose delimiter has been looked for.
unfoldable pub step_found : Parse → Bytes → ℕ → ParseOp → Option ℕ → Cursor → Step
step_found pp input i op none c =
    if op.delimiter_length == 0
    then step_captured i op (capture input op (length input) c)
    else if not pp.strict
    then goto (i + 1) (capture_rest input op c)
    else halt (subseq_delim_not_found (delimiter pp op)) c
step_found pp input i op (some idx) c = step_captured i op (capture input op (c.input_pos + idx) c)

-- The instruction behind the credentials.
abbrev pub behind_credentials : ParseOp → ℕ
behind_credentials op = elim op.credential_end [ none ↦ 0 | some e ↦ e + 1 ]

abbrev pub may_skip : Parse → ParseOp → Bool
may_skip pp op =
    not pp.strict
    && (op.field == b'u' || op.field == b'p')
    && elim op.credential_end [ none ↦ false | some _ ↦ true ]

-- A credential field that may be left out.
unfoldable pub step_credential : Parse → Bytes → ℕ → ParseOp → Cursor → Step
step_credential pp input i op c =
    let start = c.input_pos in
    let found = find_delimiter pp input op start in
    elim (index_byte (drop start input) b'@') [
      | none ↦ goto (behind_credentials op) c
      | some at ↦
          if is_bare_username pp input i op start at found
          then goto (behind_credentials op) (record c {
            proxy = record c.proxy { username = slice input start (start + at); password = [] };
            input_pos = start + at + 1;
          })
          else step_found pp input i op found c
    ]

-- One round of the loop, on instruction number `i`.
unfoldable pub step_op : Parse → Bytes → ℕ → ParseOp → Cursor → Step
step_op pp input i op c =
    if op.field == 0
    then step_delimiter pp input i op c
    else if may_skip pp op
    then step_credential pp input i op c
    else step_found pp input i op (find_delimiter pp input op c.input_pos) c

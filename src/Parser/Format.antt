-- ===== src/Parser/Format.antt =====
-- proxyparser.go: New, countFormatOps and detectParserKind.
use proxykit_go.Base.{
  ℕ, zero, suc, ◌+◌, ◌-◌, ◌^◌, Bool, true, false, not, ◌&&◌, ◌||◌, Option, none, some, List, [],
  ◌∷◌, ltb, ◌==◌, if◌then◌else◌, length, get_or, take, drop,
}
use proxykit_go.Base.Bytes.{Bytes, codes, bytes_eq}
use proxykit_go.Parser.Errors.{
  ParseError, invalid_format_end_str, format_too_long, invalid_format_verb,
}

pub data ParserKind : Type 0 where
  generic strict_scheme_host_port strict_full_credentials : ParserKind

-- An instruction. A delimiter is a piece of the format, and `field` is 0 where the instruction is
-- a delimiter itself; `none` stands for noPlanIndex.
pub record ParseOp : Type 0 where
  pub delimiter_start : ℕ
  pub delimiter_length : ℕ
  pub credential_end : Option ℕ
  pub field : ℕ
  pub delimiter_byte : ℕ
  pub consume_delimiter : Bool

pub record Parse : Type 0 where
  pub format : Bytes
  pub plan : List ParseOp
  pub strict : Bool
  pub has_scheme : Bool
  pub kind : ParserKind

pub data NewResult : Type 0 where
  compiled : Parse → NewResult
  refused : ParseError → NewResult

-- `s[i:j]`
abbrev pub slice : Bytes → ℕ → ℕ → Bytes
slice s i j = take (j - i) (drop i s)

-- `detectParserKind`
unfoldable pub detect_parser_kind : Bytes → Bool → ParserKind
detect_parser_kind format strict =
    if not strict
    then generic
    else if bytes_eq format (codes "%t://%h:%d")
    then strict_scheme_host_port
    else if bytes_eq format (codes "%t://%u:%p@%h:%d")
    then strict_full_credentials
    else generic

abbrev pub is_verb : ℕ → Bool
is_verb v = v == b't' || v == b'h' || v == b'd' || v == b'u' || v == b'p' || v == b'%'

-- The count of instructions, or the error.
pub data CountResult : Type 0 where
  counted : ℕ → CountResult
  bad_format : ParseError → CountResult

-- `countFormatOps`; the flag says that the loop stands inside a literal that is counted already,
-- which is its inner loop.
unfoldable pub count_format_ops : Bool → ℕ → Bytes → CountResult
count_format_ops inside count [] = counted count
count_format_ops inside count (c ∷ []) =
    if c == b'%'
    then bad_format invalid_format_end_str
    else counted (if inside then count else count + 1)
count_format_ops inside count (c ∷ v ∷ rest) =
    let verb = count_format_ops false (count + 1) rest in
    let literal = count_format_ops true (if inside then count else count + 1) (v ∷ rest) in
    if c == b'%' then (if is_verb v then verb else bad_format (invalid_format_verb v)) else literal

-- The length of the literal that the text begins with.
unfoldable pub literal_length : Bytes → ℕ
literal_length [] = 0
literal_length (c ∷ cs) = if c == b'%' then 0 else suc (literal_length cs)

-- A delimiter instruction.
abbrev pub delimiter_op : ℕ → ℕ → ℕ → ParseOp
delimiter_op start len byte = record {
  delimiter_start = start;
  delimiter_length = len;
  credential_end = some 0;
  field = 0;
  delimiter_byte = byte;
  consume_delimiter = false;
}

-- A field instruction, before the second pass.
abbrev pub field_op : ℕ → ParseOp
field_op verb = record {
  delimiter_start = 0;
  delimiter_length = 0;
  credential_end = none;
  field = verb;
  delimiter_byte = 0;
  consume_delimiter = false;
}

-- The first pass of `New`, from position `i` on, where `s` is the rest of the format. Each round
-- reads a byte or more, so that as many rounds as bytes are enough.
unfoldable pub scan_format : ℕ → ℕ → Bytes → List ParseOp
scan_format zero i s = []
scan_format (suc rounds) i [] = []
scan_format (suc rounds) i (c ∷ cs) =
    let n = literal_length (c ∷ cs) in
    let verb = get_or cs 0 0 in
    let behind_literal = scan_format rounds (i + n) (drop n (c ∷ cs)) in
    let behind_verb = scan_format rounds (i + 2) (drop 1 cs) in
    if not (c == b'%')
    then delimiter_op i n (if n == 1 then c else 0) ∷ behind_literal
    else if verb == b'%'
    then delimiter_op i 1 b'%' ∷ behind_verb
    else field_op verb ∷ behind_verb

-- What the second pass knows of the instructions behind the present one.
pub record Ahead : Type 0 where
  pub next_delimiter : Option ℕ
  pub next_start : ℕ
  pub next_length : ℕ
  pub next_byte : ℕ
  pub at_end : Option ℕ

abbrev pub nothing_ahead : Ahead
nothing_ahead = record {
  next_delimiter = none;
  next_start = 0;
  next_length = 0;
  next_byte = 0;
  at_end = none;
}

-- What stands ahead of the instruction before `op`, which is number `i`.
unfoldable pub look_ahead : ℕ → ParseOp → Ahead → Ahead
look_ahead i op a =
    if op.field == 0
    then record {
      next_delimiter = some i;
      next_start = op.delimiter_start;
      next_length = op.delimiter_length;
      next_byte = op.delimiter_byte;
      at_end = if op.delimiter_length == 1 && op.delimiter_byte == b'@' then some i else a.at_end;
    }
    else a

abbrev pub is_at : ℕ → Option ℕ → Bool
is_at i none = false
is_at i (some j) = j == i

-- A field is given the delimiter behind it.
unfoldable pub resolve_op : ℕ → ParseOp → Ahead → ParseOp
resolve_op i op a = if op.field == 0 then op else record {
  delimiter_start = a.next_start;
  delimiter_length = a.next_length;
  credential_end = a.at_end;
  field = op.field;
  delimiter_byte = a.next_byte;
  consume_delimiter = is_at (i + 1) a.next_delimiter;
}

-- The second pass of `New`, from the last instruction back.
unfoldable pub resolve : ℕ → List ParseOp → List ParseOp × Ahead
resolve i [] = ([], nothing_ahead)
resolve i (op ∷ ops) =
    let (done, a) = resolve (i + 1) ops in (resolve_op i op a ∷ done, look_ahead i op a)

abbrev pub has_scheme_verb : List ParseOp → Bool
has_scheme_verb [] = false
has_scheme_verb (op ∷ ops) = op.field == b't' || has_scheme_verb ops

-- `New` behind the check of the length and of the kind.
unfoldable pub new_generic : Bytes → Bool → NewResult
new_generic format strict = elim (count_format_ops false 0 format) [
  | bad_format e ↦ refused e
  | counted _ ↦
      let scanned = scan_format (length format) 0 format in
      compiled (record {
        format = format;
        plan = (resolve 0 scanned).0;
        strict = strict;
        has_scheme = has_scheme_verb scanned;
        kind = generic;
      })
]

-- A parser of one of the two formats that have a parser of their own.
abbrev pub special_parse : ParserKind → Parse
special_parse kind = record {
  format = [];
  plan = [];
  strict = true;
  has_scheme = true;
  kind = kind;
}

-- `New`
unfoldable pub new : Bytes → Bool → NewResult
new format strict =
    if ltb (2 ^ 32 - 1) (length format)
    then refused format_too_long
    else elim (detect_parser_kind format strict) [
      | generic ↦ new_generic format strict
      | other ↦ compiled (special_parse other)
    ]

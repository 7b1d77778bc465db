-- ===== src/Parser/Strict.antt =====
-- proxyparser.go: parseStrictSchemeHostPort and parseStrictFullCredentials.
use proxykit_go.Base.{◌+◌, none, some, take, drop}
use proxykit_go.Base.Bytes.{Bytes, codes, index_byte, last_index_byte, index}
use proxykit_go.Proxy.Record.{Proxy, zero_proxy}
use proxykit_go.Proxy.Validate.{validate}
use proxykit_go.Parser.Errors.{subseq_delim_not_found, Outcome, captured_scheme, wrap_error}

-- The result for a proxy that is put together: its error is that of a missing port delimiter where
-- the host has no colon.
unfoldable pub checked : Proxy → Outcome
checked p = elim (validate (some p)) [
  | none ↦ record { proxy = p; error = none }
  | some e ↦ elim (last_index_byte p.host b':') [
    | none ↦ record { proxy = zero_proxy; error = some (subseq_delim_not_found (codes ":")) }
    | some _ ↦ record { proxy = p; error = some (wrap_error e) }
  ]
]

abbrev pub missing : Bytes → Outcome
missing delim = record { proxy = zero_proxy; error = some (subseq_delim_not_found delim) }

-- `parseStrictSchemeHostPort`, with the destination as parseInto sets it.
unfoldable pub parse_strict_scheme_host_port : Bytes → Outcome
parse_strict_scheme_host_port input = elim (index input (codes "://")) [
  | none ↦ missing (codes "://")
  | some i ↦
      checked
        (record zero_proxy { scheme = captured_scheme (take i input); host = drop (i + 3) input })
]

-- The part of the input behind the scheme: `username:password@host`.
unfoldable pub parse_credentials : Bytes → Bytes → Outcome
parse_credentials scheme rest = elim (index_byte rest b':') [
  | none ↦ missing (codes ":")
  | some i ↦
      let behind = drop (i + 1) rest in
      elim (index_byte behind b'@') [
        | none ↦ missing (codes "@")
        | some j ↦ checked (record {
          scheme = captured_scheme scheme;
          host = drop (j + 1) behind;
          username = take i rest;
          password = take j behind;
        })
      ]
]

-- `parseStrictFullCredentials`, with the destination as parseInto sets it.
unfoldable pub parse_strict_full_credentials : Bytes → Outcome
parse_strict_full_credentials input = elim (index input (codes "://")) [
  | none ↦ missing (codes "://")
  | some i ↦ parse_credentials (take i input) (drop (i + 3) input)
]

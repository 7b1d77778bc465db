-- ===== src/Proxy/Record.antt =====
-- proxy.go: the struct Proxy, its getters and setters, IsZero, IsCredentialFilled and Reset. A
-- pointer receiver is an Option, and a setter returns what the pointer leads to afterwards.
use proxykit_go.Base.{Bool, true, false, not, ◌&&◌, [], Option, none, some}
use proxykit_go.Base.Bytes.{Bytes, bytes_eq}
use proxykit_go.Proxy.Scheme.{ProxyScheme}

pub record Proxy : Type 0 where
  pub scheme : ProxyScheme
  pub host : Bytes
  pub username : Bytes
  pub password : Bytes

-- `Proxy{}`
abbrev pub zero_proxy : Proxy
zero_proxy = record { scheme = []; host = []; username = []; password = [] }

unfoldable pub get_scheme : Option Proxy → ProxyScheme
get_scheme none = []
get_scheme (some p) = p.scheme

unfoldable pub set_scheme : ProxyScheme → Option Proxy → Option Proxy
set_scheme s none = none
set_scheme s (some p) = some (record p { scheme = s })

unfoldable pub get_host : Option Proxy → Bytes
get_host none = []
get_host (some p) = p.host

unfoldable pub set_host : Bytes → Option Proxy → Option Proxy
set_host s none = none
set_host s (some p) = some (record p { host = s })

unfoldable pub get_username : Option Proxy → Bytes
get_username none = []
get_username (some p) = p.username

unfoldable pub set_username : Bytes → Option Proxy → Option Proxy
set_username s none = none
set_username s (some p) = some (record p { username = s })

unfoldable pub get_password : Option Proxy → Bytes
get_password none = []
get_password (some p) = p.password

unfoldable pub set_password : Bytes → Option Proxy → Option Proxy
set_password s none = none
set_password s (some p) = some (record p { password = s })

-- `IsCredentialFilled`
unfoldable pub is_credential_filled : Option Proxy → Bool
is_credential_filled none = false
is_credential_filled (some p) = not (bytes_eq p.username [])

-- `IsZero`
unfoldable pub is_zero : Option Proxy → Bool
is_zero none = true
is_zero (some p) =
    bytes_eq p.scheme [] && bytes_eq p.host [] && bytes_eq p.username [] && bytes_eq p.password []

-- `Reset`
unfoldable pub reset : Option Proxy → Option Proxy
reset none = none
reset (some p) = some (record p { scheme = []; host = []; username = []; password = [] })

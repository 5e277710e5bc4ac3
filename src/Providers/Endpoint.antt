-- ===== src/Providers/Endpoint.antt =====
-- core/src/providers/text.rs: LocalHttpProvider::parse_endpoint and CloudHttpProvider::parse_endpoint,
-- which differ in the schemes, and in the provider's name in their messages.
pub mod Parts
pub mod Sound
use smolit_assistant.Base.{
  ℕ, ◌≡◌, refl, String, Option, none, some, if◌then◌else◌, is_empty, is_some, trim,
}
use Prim.Native.String
use smolit_assistant.Base.Failures.{Result, ok, err, and_then, bail, required}
use smolit_assistant.Base.Text.Search.{strip_prefix, cut_first, cut_last, has_char, parse_uint}
use smolit_assistant.Config.Values.{u16_bound}

pub data CloudHttpScheme : Type 0 where
  http https : CloudHttpScheme

unfoldable pub unparseable : String → String → String
unparseable name reason =
    String.◌++◌ name (String.◌++◌ " endpoint url is not parseable (" (String.◌++◌ reason ")"))

unfoldable pub port_of : String → String × String → Result (String × ℕ)
unfolding parse_uint unparseable
port_of name (h, p) = elim (parse_uint u16_bound p) [
  | none ↦ bail (unparseable name "bad port")
  | some port ↦ ok (h, port)
]

-- The host and the port: behind the last colon, or else the default of the scheme.
unfoldable pub host_port : String → ℕ → String → Result (String × ℕ)
unfolding cut_last port_of
host_port name default_port authority = elim (cut_last b':' authority) [
  | none ↦ ok (authority, default_port)
  | some parts ↦ port_of name parts
]

-- The authority and the path: from the first slash on, or else a slash.
unfoldable pub authority_path : String → String × String
unfolding cut_first
authority_path rest = elim (cut_first b'/' rest) [ none ↦ (rest, "/") | some parts ↦ parts ]

abbrev pub with_host : String → String → String × ℕ → Result (String × ℕ × String)
with_host name path (host, port) =
    if is_empty host then bail (unparseable name "empty host") else ok (host, port, path)

unfoldable pub parse_authority : String → ℕ → String × String → Result (String × ℕ × String)
unfolding host_port unparseable
parse_authority name default_port (authority, path) =
    if is_empty authority
    then bail (unparseable name "empty host")
    else and_then (host_port name default_port authority) (with_host name path)

-- What follows the scheme.
unfoldable pub parse_rest : String → ℕ → String → Result (String × ℕ × String)
unfolding has_char authority_path parse_authority unparseable
parse_rest name default_port rest =
    if has_char b'@' rest
    then bail (unparseable name "user-info in url not supported")
    else parse_authority name default_port (authority_path rest)

abbrev without_scheme : Option String → Result (String × ℕ × String)
without_scheme none = bail (unparseable "local_http" "missing http:// prefix")
without_scheme (some rest) = parse_rest "local_http" 80 rest

abbrev of_local : String → Result (String × ℕ × String)
of_local trimmed =
    if is_empty trimmed
    then bail "local_http endpoint is not configured"
    else if is_some (strip_prefix "https://" trimmed)
    then bail
        "local_http endpoint must start with http:// (https:// is not supported in this build)"
    else without_scheme (strip_prefix "http://" trimmed)

unfoldable pub parse_local_endpoint : String → Result (String × ℕ × String)
unfolding trim strip_prefix parse_rest unparseable
parse_local_endpoint endpoint = of_local (trim endpoint)

abbrev with_scheme :
    CloudHttpScheme → Result (String × ℕ × String) → Result (CloudHttpScheme × String × ℕ × String)
with_scheme scheme (ok (host, port, path)) = ok (scheme, host, port, path)
with_scheme scheme (err e) = err e

abbrev of_schemes : Option String → Option String → Result (CloudHttpScheme × String × ℕ × String)
of_schemes (some rest) insecure = with_scheme https (parse_rest "cloud_http" 443 rest)
of_schemes none (some rest) = with_scheme http (parse_rest "cloud_http" 80 rest)
of_schemes none none = bail (unparseable "cloud_http" "missing http:// or https:// prefix")

abbrev of_cloud : String → Result (CloudHttpScheme × String × ℕ × String)
of_cloud trimmed =
    if is_empty trimmed
    then bail "cloud_http endpoint is not configured"
    else of_schemes (strip_prefix "https://" trimmed) (strip_prefix "http://" trimmed)

unfoldable pub parse_cloud_endpoint : String → Result (CloudHttpScheme × String × ℕ × String)
unfolding trim strip_prefix parse_rest unparseable
parse_cloud_endpoint endpoint = of_cloud (trim endpoint)

local_test : parse_local_endpoint " http://127.0.0.1:8080/v1/c " ≡ ok ("127.0.0.1", 8080, "/v1/c")
unfolding parse_local_endpoint
local_test = refl

cloud_test : parse_cloud_endpoint "https://llm.example" ≡ ok (https, "llm.example", 443, "/")
unfolding parse_cloud_endpoint
cloud_test = refl

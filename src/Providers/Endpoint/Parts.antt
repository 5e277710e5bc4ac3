-- ===== src/Providers/Endpoint/Parts.antt =====
-- core/src/providers/text.rs: the parts of an endpoint that is accepted.
use smolit_assistant.Base.{ℕ, ◌≡◌, ◌<◌, refl, String, false, if◌then◌else◌, is_empty}
use Prim.Native.String.{◌∷◌}
use smolit_assistant.Base.Decimal.{decimal}
use smolit_assistant.Base.Decimal.Reads.{parse_uint-decimal, has_char-decimal}
use smolit_assistant.Base.Failures.{ok}
use smolit_assistant.Base.Text.Cuts.{
  ◌<>◌, has_char-append, cut_first-append, cut_last-append, nonempty-append,
}
use smolit_assistant.Base.Text.Search.{has_char}
use smolit_assistant.Config.Values.{u16_bound}
use smolit_assistant.Providers.Endpoint.{
  host_port, port_of, authority_path, parse_authority, parse_rest,
}

authority_path_split :
    (authority path : String)
    → has_char b'/' authority ≡ false
    → authority_path (authority <> ("/" ∷ path)) ≡ (authority, "/" ∷ path)
unfolding authority_path
authority_path_split authority path no_slash =
    rw (cut_first-append b'/' "/" authority path refl no_slash, authority_path) refl

host_port_split :
    (name : String) (default_port : ℕ) (host : String) (port : ℕ)
    → port < u16_bound
    → host_port name default_port (host <> (":" ∷ decimal port)) ≡ ok (host, port)
unfolding host_port port_of
host_port_split name default_port host port small =
    rw
      (
        cut_last-append b':' ":" host (decimal port) refl (has_char-decimal b':' port refl),
        host_port,
      )
      (rw (parse_uint-decimal u16_bound port small, port_of) refl)

-- A non-empty host without slash and at-sign, a port of 16 bits, and a path without at-sign are read
-- back from the text that spells them, whatever else the path holds, a query included.
pub parse_rest-render :
    (name : String) (default_port : ℕ) (host : String) (port : ℕ) (path : String)
    → is_empty host ≡ false
    → has_char b'/' host ≡ false
    → has_char b'@' host ≡ false
    → port < u16_bound
    → has_char b'@' path ≡ false
    → parse_rest name default_port ((host <> (":" ∷ decimal port)) <> ("/" ∷ path))
      ≡ ok (host, port, "/" ∷ path)
unfolding parse_rest parse_authority has_char
parse_rest-render name default_port host port path full no_slash no_at small clean =
    let authority = host <> (":" ∷ decimal port) in
    let no_at' : has_char b'@' (authority <> ("/" ∷ path)) ≡ false =
      has_char-append b'@' authority ("/" ∷ path)
        (has_char-append b'@' host (":" ∷ decimal port) no_at (has_char-decimal b'@' port refl))
        clean in
    let no_slash' : has_char b'/' authority ≡ false =
      has_char-append b'/' host (":" ∷ decimal port) no_slash (has_char-decimal b'/' port refl) in
    rw (no_at', if◌then◌else◌)
      (rw (authority_path_split authority path no_slash') (
        rw (nonempty-append host (":" ∷ decimal port) full, if◌then◌else◌)
          (rw (host_port_split name default_port host port small) (rw full refl))))

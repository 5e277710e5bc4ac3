-- ===== src/Providers/Endpoint/Sound.antt =====
-- core/src/providers/text.rs: what an endpoint that is accepted is made of.
use smolit_assistant.Base.{
  ℕ, ◌≡◌, ◌<◌, refl, subst, inl, inr, String, false, List, some, if◌then◌else◌, is_empty,
  Bool-cases, Option-cases,
}
use smolit_assistant.Base.Failures.{Result, ok, err, and_then}
use smolit_assistant.Base.Text.Search.{cut_first, cut_last, has_char, parse_uint, parse_uint-lt}
use smolit_assistant.Config.Values.{u16_bound}
use smolit_assistant.Providers.Endpoint.{
  host_port, port_of, authority_path, with_host, parse_authority, parse_rest,
}
use smolit_assistant.Base.Text.Cuts.{has_char-cut_last, Begins, cut_first_parts, cut_first-none}

-- The host of an endpoint that is accepted, its port and its path.
abbrev pub IsEndpoint : String × ℕ × String → Type 0
IsEndpoint (host, port, path) =
    (is_empty host ≡ false)
    × (has_char b'/' host ≡ false)
    × (has_char b'@' host ≡ false)
    × (port < u16_bound)
    × Begins b'/' path

abbrev IsOk : Result (String × ℕ × String) → Type 0
IsOk (ok parts) = IsEndpoint parts
IsOk (err e) = ⊥

behind_colon :
    (name : String) (j : ℕ) (authority host a p : String) (port : ℕ)
    → cut_last b':' authority ≡ some (a, p)
    → port_of name (a, p) ≡ ok (host, port)
    → (port < u16_bound) × (has_char j authority ≡ false → has_char j host ≡ false)
unfolding port_of
behind_colon name j authority host a p port e h = elim (Option-cases (parse_uint u16_bound p)) [
  | inl bad ↦ cc (rw (bad, port_of) at h)
  | inr (n, read) ↦
      let h' : ok (a, n) ≡ ok (host, port) = rw (read, port_of) at h in
      let port_same : n ≡ port = cc in
      let host_same : a ≡ host = cc in
      (
        subst (λ m. m < u16_bound) port_same (parse_uint-lt u16_bound p read),
        subst (λ v. has_char j authority ≡ false → has_char j v ≡ false) host_same
            (has_char-cut_last b':' j authority a p e),
      )
]

host_port-ok :
    (name : String) (default_port j : ℕ) (authority host : String) (port : ℕ)
    → default_port < u16_bound
    → host_port name default_port authority ≡ ok (host, port)
    → (port < u16_bound) × (has_char j authority ≡ false → has_char j host ≡ false)
unfolding host_port
host_port-ok name default_port j authority host port small h =
    elim (Option-cases (cut_last b':' authority)) [
      | inl missing ↦
          let same : authority ≡ host = cc (rw (missing, host_port) at h) in
          let port_same : default_port ≡ port = cc (rw (missing, host_port) at h) in
          (
            subst (λ p. p < u16_bound) port_same small,
            subst (λ v. has_char j authority ≡ false → has_char j v ≡ false) same (λ g. g),
          )
      | inr ((a, p), e) ↦ behind_colon name j authority host a p port e (rw (e, host_port) at h)
    ]

authority_path_parts :
    (j : ℕ) (rest : String)
    → (has_char b'/' (authority_path rest).0 ≡ false)
      × Begins b'/' (authority_path rest).1
      × (has_char j rest ≡ false → has_char j (authority_path rest).0 ≡ false)
unfolding authority_path
authority_path_parts j rest = elim (Option-cases (cut_first b'/' rest)) [
  | inl missing ↦ rw (missing, authority_path) (cut_first-none b'/' rest missing, refl, λ g. g)
  | inr ((a, b), e) ↦ rw (e, authority_path) (cut_first_parts b'/' j rest a b e)
]

data HostPort (name : String) (default_port : ℕ) (a : String) : Type 0 where
  refused : (e : List String) → host_port name default_port a ≡ err e → HostPort name default_port a
  split_in :
      (host : String) (port : ℕ)
      → host_port name default_port a ≡ ok (host, port)
      → HostPort name default_port a

HostPort-cases :
    (name : String) (default_port : ℕ) (a : String) (r : Result (String × ℕ))
    → host_port name default_port a ≡ r
    → HostPort name default_port a
HostPort-cases name default_port a (ok (host, port)) e = split_in host port e
HostPort-cases name default_port a (err m) e = refused m e

with_host_parts :
    (name : String) (default_port : ℕ) (a p host : String) (port : ℕ) (path : String)
    → default_port < u16_bound
    → has_char b'/' a ≡ false
    → has_char b'@' a ≡ false
    → Begins b'/' p
    → and_then (host_port name default_port a) (with_host name p) ≡ ok (host, port, path)
    → IsEndpoint (host, port, path)
with_host_parts name default_port a p host port path small no_slash no_at begins h =
    elim (HostPort-cases name default_port a (host_port name default_port a) refl) [
      | refused m e ↦ cc (rw e at h)
      | split_in host' port' e ↦ elim (Bool-cases (is_empty host')) [
        | inl blank ↦ cc (rw blank at (rw e at h))
        | inr full ↦
            let h1 : ok (host', port', p) ≡ ok (host, port, path) = rw full at (rw e at h) in
            let (bound, slash) = host_port-ok name default_port b'/' a host' port' small e in
            let (bound', at) = host_port-ok name default_port b'@' a host' port' small e in
            subst (λ r. IsOk r) h1 (full, slash no_slash, at no_at, bound, begins)
      ]
    ]

accepted :
    (name : String) (default_port : ℕ) (a p host : String) (port : ℕ) (path : String)
    → default_port < u16_bound
    → has_char b'/' a ≡ false
    → has_char b'@' a ≡ false
    → Begins b'/' p
    → parse_authority name default_port (a, p) ≡ ok (host, port, path)
    → IsEndpoint (host, port, path)
unfolding parse_authority
accepted name default_port a p host port path small no_slash no_at begins h =
    elim (Bool-cases (is_empty a)) [
      | inl blank ↦ cc (rw (blank, if◌then◌else◌) at h)
      | inr full ↦
          with_host_parts name default_port a p host port path small no_slash no_at begins
            (rw (full, if◌then◌else◌) at h)
    ]

-- If the default port has 16 bits, an accepted endpoint has a non-empty host without slash and at-sign,
-- a port of 16 bits, and a path that begins with a slash.
pub parse_rest-IsEndpoint :
    (name : String) (default_port : ℕ) (rest : String) (parts : String × ℕ × String)
    → default_port < u16_bound
    → parse_rest name default_port rest ≡ ok parts
    → IsEndpoint parts
unfolding parse_rest parse_authority
parse_rest-IsEndpoint name default_port rest (host, port, path) small h =
    elim (Bool-cases (has_char b'@' rest)) [
      | inl at ↦ cc (rw (at, if◌then◌else◌) at h)
      | inr clean ↦
          let (a, p) = authority_path rest in
          let (no_slash, begins, no_at) = authority_path_parts b'@' rest in
          let h1 : parse_authority name default_port (a, p) ≡ ok (host, port, path) =
            rw (clean, if◌then◌else◌) at h in
          accepted name default_port a p host port path small no_slash (no_at clean) begins h1
    ]

-- ===== src/Config/Values.antt =====
-- core/src/config.rs: how one value of the environment is read.
use smolit_assistant.Base.{
  ℕ, ◌≡◌, refl, String, Bool, true, false, Option, none, some, List, [], ◌∷◌, ◌==◌, leb,
  if◌then◌else◌, ◌>>=◌, or_else, any, is_empty, trim, to_ascii_lowercase,
}
use smolit_assistant.Base.Text.Search.{parse_uint, split}
use smolit_assistant.Config.{
  default_text_provider_chain, default_llamafile_mode, default_llamafile_port,
  allowed_llamafile_modes,
}

-- `trim().to_ascii_lowercase()`.
unfoldable pub normalized : String → String
unfolding trim to_ascii_lowercase
normalized s = to_ascii_lowercase (trim s)

abbrev pub true_words : List String
true_words = "true" ∷ "1" ∷ "yes" ∷ "on" ∷ []

abbrev pub false_words : List String
false_words = "false" ∷ "0" ∷ "no" ∷ "off" ∷ []

abbrev pub is_listed : List String → String → Bool
is_listed words v = any (λ w. w == v) words

unfoldable pub parse_bool : Option String → Bool → Bool
unfolding normalized
parse_bool none default = default
parse_bool (some v) default =
    if is_listed true_words (normalized v)
    then true
    else if is_listed false_words (normalized v)
    then false
    else default

abbrev pub u16_bound : ℕ
u16_bound = 65536

abbrev pub u64_bound : ℕ
u64_bound = 18446744073709551616

unfoldable pub parse_u64 : Option String → ℕ → ℕ
unfolding trim parse_uint
parse_u64 value default = or_else (value >>= λ v. parse_uint u64_bound (trim v)) default

-- `items`: the pieces between the commas in normal form, without the empty ones.
unfoldable pub chain_items : List String → List String
unfolding normalized
chain_items [] = []
chain_items (piece ∷ pieces) =
    let rest = chain_items pieces in
    if is_empty (normalized piece) then rest else normalized piece ∷ rest

abbrev pub nonempty_or : List String → List String → List String
nonempty_or [] default_chain = default_chain
nonempty_or (item ∷ items) default_chain = item ∷ items

unfoldable pub parse_audio_provider_chain : Option String → List String → List String
unfolding chain_items split
parse_audio_provider_chain none default_chain = default_chain
parse_audio_provider_chain (some value) default_chain =
    nonempty_or (chain_items (split b',' value)) default_chain

unfoldable pub parse_text_provider_chain : Option String → List String
unfolding chain_items split
parse_text_provider_chain none = default_text_provider_chain
parse_text_provider_chain (some value) =
    nonempty_or (chain_items (split b',' value)) default_text_provider_chain

-- `iter().find(|m| **m == normalized)`.
unfoldable pub find_word : String → List String → Option String
find_word v [] = none
find_word v (w ∷ ws) = let rest = find_word v ws in if w == v then some w else rest

unfoldable pub validate_llamafile_mode : String → Option String
unfolding normalized find_word
validate_llamafile_mode raw = find_word (normalized raw) allowed_llamafile_modes

unfoldable pub parse_llamafile_mode : Option String → String
unfolding validate_llamafile_mode
parse_llamafile_mode raw = or_else (raw >>= validate_llamafile_mode) default_llamafile_mode

abbrev pub unprivileged_or_default : Option ℕ → ℕ
unprivileged_or_default none = default_llamafile_port
unprivileged_or_default (some p) = if leb 1024 p then p else default_llamafile_port

unfoldable pub parse_llamafile_port : Option String → ℕ
unfolding trim parse_uint
parse_llamafile_port none = default_llamafile_port
parse_llamafile_port (some value) = unprivileged_or_default (parse_uint u16_bound (trim value))

-- `Some(trimmed)`, or `None` for a text of white space.
unfoldable pub some_unless_blank : String → Option String
unfolding trim
some_unless_blank v = if is_empty (trim v) then none else some (trim v)

unfoldable pub non_empty : Option String → Option String
unfolding some_unless_blank
non_empty value = value >>= some_unless_blank

chain_test : parse_text_provider_chain (some " Local_HTTP, ,abrain,") ≡ "local_http" ∷ "abrain" ∷ []
unfolding parse_text_provider_chain
chain_test = refl

port_test : parse_llamafile_port (some " 80 ") ≡ 8788
unfolding parse_llamafile_port
port_test = refl

-- ===== src/Config/Strict.antt =====
-- What core/src/config.rs guarantees of a loaded configuration, whatever the environment holds.
use smolit_assistant.Base.{
  ◌≡◌, ◌↔◌, ◌≤◌, ◌<◌, refl, String, Bool, true, false, not, Option, none, some, inl, inr, List, [],
  ◌∷◌, ◌==◌, arith, if◌then◌else◌, or_else, In, test-In, All, trim, is_empty, Bool-cases,
  Option-cases,
}
use smolit_assistant.Base.Text.Search.{split, parse_uint, parse_uint-lt}
use smolit_assistant.Base.Text.Listed.{any-In_iff}
use smolit_assistant.Config.{
  Config, CliArgs, allowed_llamafile_modes, default_text_provider_chain, default_stt_provider_chain,
  default_tts_provider_chain,
}
use smolit_assistant.Config.Values.{
  parse_bool, true_words, false_words, is_listed, normalized, find_word, validate_llamafile_mode,
  parse_llamafile_mode, parse_llamafile_port, unprivileged_or_default, u16_bound, chain_items,
  nonempty_or, parse_text_provider_chain, parse_audio_provider_chain,
}
use smolit_assistant.Config.Load.{
  load, load_config, load_interaction, load_text_provider, load_llamafile, load_audio, lookup,
}

-- The variable holds one of the words for false.
unfoldable pub IsNegated : Option String → Type 0
IsNegated none = ⊥
IsNegated (some v) = In (normalized v) false_words

-- `parse_bool` with the default true, on a normal form.
abbrev flag : String → Bool
flag n = if is_listed true_words n then true else if is_listed false_words n then false else true

false-not : (b : Bool) → not b ≡ true → b ≡ false
false-not true h = cc
false-not false h = refl

flag-In : (n : String) → flag n ≡ false → In n false_words
flag-In n h = elim (Bool-cases (is_listed true_words n)) [
  | inl t ↦ cc (rw (t, if◌then◌else◌) at h)
  | inr t ↦ elim (Bool-cases (is_listed false_words n)) [
    | inl f ↦ (any-In_iff n false_words).0 f
    | inr f ↦ cc (rw (t, f, if◌then◌else◌) at h)
  ]
]

In-flag : (n : String) → In n false_words → flag n ≡ false
In-flag n m = false-not (flag n) (test-In (λ k. not (flag k)) false_words refl m)

-- A flag that is true by default is false exactly if its variable holds a word for false.
pub parse_bool-true_iff : (o : Option String) → (parse_bool o true ≡ false) ↔ IsNegated o
unfolding parse_bool IsNegated
parse_bool-true_iff none = ((λ h. cc), (λ h. absurd h))
parse_bool-true_iff (some v) = (flag-In (normalized v), In-flag (normalized v))

-- A loaded configuration drops the confirmation of interactions exactly if the variable
-- SMOLIT_INTERACTION_REQUIRE_CONFIRMATION, of the environment or else of the file, is set to one of
-- `false`, `0`, `no` and `off`, white space around it and capitals aside.
pub load-confirmation_iff :
    (args : CliArgs) (env : String → Option String) (dotenv : List (String × String))
    → ((load args env dotenv).interaction.require_confirmation ≡ false)
      ↔ IsNegated (lookup env dotenv "SMOLIT_INTERACTION_REQUIRE_CONFIRMATION")
unfolding load load_config load_interaction
load-confirmation_iff args env dotenv = parse_bool-true_iff _

In-find_word : (v : String) (ws : List String) {w : String} → find_word v ws ≡ some w → In w ws
unfolding find_word
In-find_word v [] h = cc
In-find_word v (w ∷ ws) h = elim (Bool-cases (w == v)) [
  | inl same ↦ inl (cc (rw (same, if◌then◌else◌) at h))
  | inr other ↦ inr (In-find_word v ws (rw (other, if◌then◌else◌) at h))
]

-- A text in the normal form of a chain: not empty, and trimmed and in lower case.
pub IsItem : String → Type 0
IsItem k = (is_empty k ≡ false) × ((raw : String) × (k ≡ normalized raw))

abbrev pub IsNonempty {ℓ} : {A : Type ℓ} → List A → Type 0
IsNonempty [] = ⊥
IsNonempty (x ∷ xs) = Unit

-- Chains with an entry, entries in normal form, a mode of the list, and a port that needs no
-- privileges.
pub record IsSane (c : Config) : Type 0 where
  pub text_chain : IsNonempty c.text_provider.chain × All IsItem c.text_provider.chain
  pub stt_chain : IsNonempty c.audio.stt_provider_chain × All IsItem c.audio.stt_provider_chain
  pub tts_chain : IsNonempty c.audio.tts_provider_chain × All IsItem c.audio.tts_provider_chain
  pub mode : In c.text_provider.llamafile.mode allowed_llamafile_modes
  pub unprivileged : 1024 ≤ c.text_provider.llamafile.port
  pub port : c.text_provider.llamafile.port < u16_bound

chain_items-IsItem : (pieces : List String) → All IsItem (chain_items pieces)
unfolding chain_items IsItem
chain_items-IsItem [] = tt
chain_items-IsItem (piece ∷ pieces) = elim (Bool-cases (is_empty (normalized piece))) [
  | inl blank ↦ rw (blank, if◌then◌else◌) (chain_items-IsItem pieces)
  | inr full ↦ rw (full, if◌then◌else◌) ((full, (piece, refl)), chain_items-IsItem pieces)
]

nonempty_or-IsItem :
    (items default_chain : List String)
    → IsNonempty default_chain
    → All IsItem default_chain
    → All IsItem items
    → IsNonempty (nonempty_or items default_chain) × All IsItem (nonempty_or items default_chain)
nonempty_or-IsItem [] default_chain full good h = (full, good)
nonempty_or-IsItem (item ∷ items) default_chain full good h = (tt, h)

module _ (default_chain : List String) (full : IsNonempty default_chain)
    (good : All IsItem default_chain) where
  audio_chain-IsItem :
      (o : Option String)
      → IsNonempty (parse_audio_provider_chain o default_chain)
        × All IsItem (parse_audio_provider_chain o default_chain)
  unfolding parse_audio_provider_chain
  audio_chain-IsItem none = (full, good)
  audio_chain-IsItem (some value) =
      nonempty_or-IsItem (chain_items (split b',' value)) default_chain full good
        (chain_items-IsItem (split b',' value))

text_chain-IsItem :
    (o : Option String)
    → IsNonempty (parse_text_provider_chain o) × All IsItem (parse_text_provider_chain o)
unfolding parse_text_provider_chain IsItem normalized
text_chain-IsItem none = (tt, ((refl, ("abrain", refl)), tt))
text_chain-IsItem (some value) =
    nonempty_or-IsItem (chain_items (split b',' value)) default_text_provider_chain tt
      ((refl, ("abrain", refl)), tt) (chain_items-IsItem (split b',' value))

mode-In : (o : Option String) → In (parse_llamafile_mode o) allowed_llamafile_modes
unfolding parse_llamafile_mode validate_llamafile_mode
mode-In none = inl refl
mode-In (some raw) = elim (Option-cases (find_word (normalized raw) allowed_llamafile_modes)) [
  | inl e ↦ rw (e, or_else) (inl refl)
  | inr (w, e) ↦ rw (e, or_else) (In-find_word (normalized raw) allowed_llamafile_modes e)
]

port_bounds :
    (o : Option String) → (1024 ≤ parse_llamafile_port o) × (parse_llamafile_port o < u16_bound)
unfolding parse_llamafile_port
port_bounds none = (omega arith, omega arith)
port_bounds (some value) = elim (Option-cases (parse_uint u16_bound (trim value))) [
  | inl e ↦ rw (e, unprivileged_or_default) (omega arith, omega arith)
  | inr (p, e) ↦
      let small = parse_uint-lt u16_bound (trim value) e in
      rw (e, unprivileged_or_default) (ground arith, ground arith)
]

-- Whatever the command line, the environment and the file hold, a loaded configuration has provider
-- chains with at least one entry, each in normal form, a llamafile mode of the list, and a llamafile
-- port from 1024 to 65535.
pub load-IsSane :
    (args : CliArgs) (env : String → Option String) (dotenv : List (String × String))
    → IsSane (load args env dotenv)
unfolding load load_config load_text_provider load_llamafile load_audio IsItem normalized
load-IsSane args env dotenv = record {
  text_chain = text_chain-IsItem (lookup env dotenv "SMOLIT_TEXT_PROVIDER_CHAIN");
  stt_chain =
      audio_chain-IsItem default_stt_provider_chain tt ((refl, ("command", refl)), tt)
        (lookup env dotenv "SMOLIT_STT_PROVIDER_CHAIN");
  tts_chain =
      audio_chain-IsItem default_tts_provider_chain tt ((refl, ("command", refl)), tt)
        (lookup env dotenv "SMOLIT_TTS_PROVIDER_CHAIN");
  mode = mode-In (lookup env dotenv "SMOLIT_LLAMAFILE_MODE");
  unprivileged = (port_bounds (lookup env dotenv "SMOLIT_LLAMAFILE_PORT")).0;
  port = (port_bounds (lookup env dotenv "SMOLIT_LLAMAFILE_PORT")).1;
}

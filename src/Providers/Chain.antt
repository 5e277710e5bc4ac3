-- ===== src/Providers/Chain.antt =====
-- core/src/providers/{text,stt,tts}.rs: the validation of a chain that a client sends.
pub mod Valid
use smolit_assistant.Base.{
  ◌≡◌, refl, String, Bool, ◌||◌, not, List, [], ◌∷◌, ◌++◌, ◌==◌, if◌then◌else◌, any, is_empty,
}
use Prim.Native.String
use smolit_assistant.Config.Values.{normalized}
use smolit_assistant.Providers.{known_text_kinds, known_stt_kinds, known_tts_kinds}

-- TextChainValidationError, SttChainValidationError and TtsChainValidationError.
pub data ChainValidationError : Type 0 where
  empty : ChainValidationError
  unknown_kind : String → ChainValidationError
  duplicate : String → ChainValidationError

pub data Validation : Type 0 where
  valid : List String → Validation
  invalid : ChainValidationError → Validation

-- The loop of the validation; `out` is what it has pushed so far.
unfoldable pub push_kinds : List String → List String → List String → Validation
unfolding normalized
push_kinds known out [] = valid out
push_kinds known out (item ∷ raw) =
    let kind = normalized item in
    let rest = push_kinds known (out ++ kind ∷ []) raw in
    if is_empty kind || not (any (λ k. k == kind) known)
    then invalid (unknown_kind kind)
    else if any (λ existing. existing == kind) out
    then invalid (duplicate kind)
    else rest

unfoldable pub validate_chain : List String → List String → Validation
unfolding push_kinds
validate_chain known [] = invalid empty
validate_chain known (item ∷ raw) = push_kinds known [] (item ∷ raw)

unfoldable pub validate_text_chain : List String → Validation
unfolding validate_chain
validate_text_chain raw = validate_chain known_text_kinds raw

unfoldable pub validate_stt_chain : List String → Validation
unfolding validate_chain
validate_stt_chain raw = validate_chain known_stt_kinds raw

unfoldable pub validate_tts_chain : List String → Validation
unfolding validate_chain
validate_tts_chain raw = validate_chain known_tts_kinds raw

-- `join(", ")`.
unfoldable pub join : String → List String → String
join separator [] = ""
join separator (x ∷ []) = x
join separator (x ∷ y ∷ xs) = String.◌++◌ x (String.◌++◌ separator (join separator (y ∷ xs)))

-- The `Display` of the error, with the name of the axis and its known kinds.
unfoldable pub display_chain_error : String → List String → ChainValidationError → String
unfolding join
display_chain_error axis known empty =
    String.◌++◌ axis " provider chain is empty (use reset to restore default)"
display_chain_error axis known (unknown_kind k) = String.◌++◌ "unknown " (
    String.◌++◌ axis (
      String.◌++◌ " provider kind `"
        (String.◌++◌ k (String.◌++◌ "` (known: " (String.◌++◌ (join ", " known) ")")))))
display_chain_error axis known (duplicate k) =
    String.◌++◌ "duplicate "
      (String.◌++◌ axis (String.◌++◌ " provider kind `" (String.◌++◌ k "` in chain")))

validate_test :
    validate_text_chain (" Cloud_HTTP" ∷ "abrain" ∷ []) ≡ valid ("cloud_http" ∷ "abrain" ∷ [])
unfolding validate_text_chain
validate_test = refl

duplicate_test : validate_stt_chain ("command" ∷ "COMMAND" ∷ []) ≡ invalid (duplicate "command")
unfolding validate_stt_chain
duplicate_test = refl

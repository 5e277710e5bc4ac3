-- ===== src/Capabilities/Tables.antt =====
-- The descriptive tables of core/src/capabilities.rs.
use smolit_assistant.Base.{
  String, Bool, true, false, some, none, ◌&&◌, is_some, List, [], ◌∷◌, ◌≡◌, refl, sym, ◌∙◌, ap, not,
  if◌then◌else◌, ◌==◌, In, all, test-In, inl, inr, Option, Bool-cases, arith,
}
use mathlib.Core.Bool.{false≢true}
use smolit_assistant.Kinds.{risk_high}
use smolit_assistant.Base.Text.Listed.{any-In_iff}
use smolit_assistant.Capabilities.{
  known_capability_ids, is_known_capability_id, is_executable_today, audit_read_recent,
  provider_text_generate, provider_stt_transcribe, provider_tts_speak, admin_action_execute,
  admin_action_dry_run, interaction_type_text, interaction_send_shortcut, one_of,
  risk_for_capability, requires_approval_by_default, audit_required_by_default,
  correlation_required_by_default,
}
use smolit_assistant.Capabilities.Vocabulary.{known_iff}

-- All four tables have an entry for `id`, or none has.
abbrev pub Entries : String → Bool → Type 0
Entries id b =
    (is_some (risk_for_capability id) ≡ b)
    × (is_some (requires_approval_by_default id) ≡ b)
    × (is_some (audit_required_by_default id) ≡ b)
    × (is_some (correlation_required_by_default id) ≡ b)

abbrev has_entries : String → Bool
has_entries id =
    is_some (risk_for_capability id)
    && is_some (requires_approval_by_default id)
    && is_some (audit_required_by_default id)
    && is_some (correlation_required_by_default id)

known_check : all has_entries known_capability_ids ≡ true
unfolding risk_for_capability requires_approval_by_default audit_required_by_default
    correlation_required_by_default one_of is_known_capability_id
known_check = refl

known-Entries : (id : String) → In id known_capability_ids → Entries id true
known-Entries id m = all_four _ _ _ _ (test-In has_entries known_capability_ids known_check m)
  where
    all_four :
        (a b c d : Bool)
        → (a && b && c && d) ≡ true
        → (a ≡ true) × (b ≡ true) × (c ≡ true) × (d ≡ true)
    all_four a b c d h = ground arith

-- An identifier outside the vocabulary stands in no group of known identifiers.
miss :
    (ids : List String) (id : String)
    → all is_known_capability_id ids ≡ true
    → is_known_capability_id id ≡ false
    → one_of ids id ≡ false
unfolding one_of
miss ids id h u = elim (Bool-cases (one_of ids id)) [
  | inl hit ↦
      absurd (false≢true (sym u ∙ test-In is_known_capability_id ids h ((any-In_iff id ids).0 hit)))
  | inr other ↦ other
]

audit_group : all is_known_capability_id (audit_read_recent ∷ []) ≡ true
unfolding is_known_capability_id
audit_group = refl

provider_group :
    all is_known_capability_id
      (provider_text_generate ∷ provider_stt_transcribe ∷ provider_tts_speak ∷ [])
    ≡ true
unfolding is_known_capability_id
provider_group = refl

high_group :
    all is_known_capability_id (
      admin_action_execute ∷ admin_action_dry_run ∷ interaction_type_text
      ∷ interaction_send_shortcut ∷ [])
    ≡ true
unfolding is_known_capability_id
high_group = refl

module _ (id : String) (u : is_known_capability_id id ≡ false) where
  skip :
      {A : Type 0} (ids : List String) (a b : A)
      → all is_known_capability_id ids ≡ true
      → (if one_of ids id then a else b) ≡ b
  skip ids a b h = rw (miss ids id h u)

  unknown : {A : Type 0} (a b : A) → (if is_known_capability_id id then a else b) ≡ b
  unknown a b = rw u

  risk_unknown : risk_for_capability id ≡ none
  unfolding risk_for_capability is_known_capability_id
  risk_unknown =
      skip _ _ _ refl
      ∙ skip _ _ _ refl
      ∙ skip _ _ _ refl
      ∙ skip _ _ _ refl
      ∙ skip _ _ _ refl
      ∙ skip _ _ _ refl
      ∙ skip _ _ _ refl
      ∙ skip _ _ _ refl
      ∙ skip _ _ _ refl
      ∙ skip _ _ _ refl

  approval_unknown : requires_approval_by_default id ≡ none
  unfolding requires_approval_by_default is_known_capability_id
  approval_unknown =
      skip _ _ _ refl
      ∙ skip _ _ _ refl
      ∙ skip _ _ _ refl
      ∙ skip _ _ _ refl
      ∙ skip _ _ _ refl
      ∙ skip _ _ _ refl
      ∙ skip _ _ _ refl
      ∙ skip _ _ _ refl

  audit_unknown : audit_required_by_default id ≡ none
  unfolding audit_required_by_default
  audit_unknown =
      skip (audit_read_recent ∷ []) _ _ audit_group
      ∙ skip (provider_text_generate ∷ provider_stt_transcribe ∷ provider_tts_speak ∷ []) _ _
          provider_group
      ∙ unknown _ _

  correlation_unknown : correlation_required_by_default id ≡ none
  unfolding correlation_required_by_default
  correlation_unknown =
      skip
        (admin_action_execute ∷ admin_action_dry_run ∷ interaction_type_text
          ∷ interaction_send_shortcut ∷ [])
        _ _ high_group
      ∙ skip (audit_read_recent ∷ []) _ _ audit_group
      ∙ unknown _ _

  unknown-Entries : Entries id false
  unknown-Entries = (
    ap is_some risk_unknown,
    ap is_some approval_unknown,
    ap is_some audit_unknown,
    ap is_some correlation_unknown,
  )

-- The four tables are defined on the vocabulary and nowhere else.
pub Entries-known : (id : String) → Entries id (is_known_capability_id id)
Entries-known id = elim (Bool-cases (is_known_capability_id id)) [
  | inl known ↦ rw known (known-Entries id ((known_iff id).0 known))
  | inr other ↦ rw other (unknown-Entries id other)
]

-- How the tables judge an identifier of high risk: approval and correlation are required, and it
-- is not executable today.
abbrev pub GuardedIfHigh : String → Type 0
GuardedIfHigh id =
    (requires_approval_by_default id ≡ some true)
    × (correlation_required_by_default id ≡ some true)
    × (is_executable_today id ≡ false)

abbrev is_high : Option String → Bool
is_high none = false
is_high (some r) = r == risk_high

abbrev is_true : Option Bool → Bool
is_true none = false
is_true (some b) = b

abbrev guarded_if_high : String → Bool
guarded_if_high id =
    if is_high (risk_for_capability id)
    then is_true (requires_approval_by_default id)
      && is_true (correlation_required_by_default id)
      && not (is_executable_today id)
    else true

high_check : all guarded_if_high known_capability_ids ≡ true
unfolding risk_for_capability requires_approval_by_default correlation_required_by_default one_of
    is_known_capability_id is_executable_today
high_check = refl

known_of_risk : (id r : String) → risk_for_capability id ≡ some r → is_known_capability_id id ≡ true
known_of_risk id r h = elim (Bool-cases (is_known_capability_id id)) [
  | inl known ↦ known
  | inr other ↦ absurd (ground (arith, h, risk_unknown id other))
]

all_guarded :
    (a c : Option Bool) (e : Bool)
    → (is_true a && is_true c && not e) ≡ true
    → (a ≡ some true) × (c ≡ some true) × (e ≡ false)
all_guarded a c e h = ground arith

-- Whatever has high risk is approval-gated and correlated by default, and not executable today.
pub high-GuardedIfHigh : (id : String) → risk_for_capability id ≡ some risk_high → GuardedIfHigh id
high-GuardedIfHigh id h = all_guarded _ _ _ (
    rw h at (
      test-In guarded_if_high known_capability_ids high_check
        ((known_iff id).0 (known_of_risk id risk_high h))))

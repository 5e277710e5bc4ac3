-- ===== src/Guard/FailClosed.antt =====
-- The decisions of the guard of core/src/capability_guard.rs.
use smolit_assistant.Base.{
  String, Bool, true, false, Option, none, some, ◌≡◌, refl, ◌↔◌, ◌⊎◌, inl, In, all, test-In, trim,
  or_else, subst, sym, ap, if◌then◌else◌, arith,
}
use smolit_assistant.Kinds.{InteractionKind, open_application, focus_window}
use smolit_assistant.Capabilities.{
  assistant_demo_echo, assistant_demo_wait, assistant_plan_demo_action, executable_today,
  is_executable_today, is_known_capability_id, capability_id_for_plan,
}
use smolit_assistant.Capabilities.Vocabulary.{executable_iff}
use smolit_assistant.Guard.{
  CapabilityGuardDecision, allow, deny, CapabilityGuardInput, is_allow, guard_id, guard_optional,
  guard_capability, guard_interaction_kind, guard_demo_kind, known_guard_reasons,
  recovery_hint_fallback_unavailable,
}

executable_check : all (λ id. is_allow (guard_id id)) executable_today ≡ true
unfolding is_allow guard_id trim is_known_capability_id is_executable_today
executable_check = refl

allow_of_is_allow : (d : CapabilityGuardDecision) → is_allow d ≡ true → d ≡ allow
unfolding is_allow
allow_of_is_allow allow h = refl
allow_of_is_allow (deny reason hint) h = cc

guard_id_complete : (id : String) → is_executable_today id ≡ true → guard_id id ≡ allow
guard_id_complete id h = allow_of_is_allow _ (
    test-In (λ k. is_allow (guard_id k)) executable_today executable_check
      ((executable_iff id).0 h))

guard_id_sound : (id : String) → guard_id id ≡ allow → is_executable_today id ≡ true
unfolding guard_id
guard_id_sound id h = ground arith

guard_optional_iff :
    (o : Option String)
    → (guard_optional o ≡ allow) ↔ ((id : String) × (o ≡ some id) × (is_executable_today id ≡ true))
unfolding guard_optional
guard_optional_iff none = (λ h. cc, λ r. cc (r.1))
guard_optional_iff (some id) = (
  λ h. (id, refl, guard_id_sound id h),
  λ r.
      guard_id_complete id
        (subst (λ k. is_executable_today k ≡ true) (sym (ap (λ o. or_else o id) r.1)) r.2),
)

-- The guard allows an input exactly when it carries an identifier that is executable today.
pub guard_capability_iff :
    (input : CapabilityGuardInput)
    → (guard_capability input ≡ allow)
      ↔ ((id : String) × (input.capability_id ≡ some id) × (is_executable_today id ≡ true))
unfolding guard_capability
guard_capability_iff input = guard_optional_iff input.capability_id

-- A refusal carries one of the listed reasons and the one hint.
abbrev pub IsCurated : CapabilityGuardDecision → Type 0
IsCurated allow = Unit
IsCurated (deny reason hint) =
    In reason known_guard_reasons × (hint ≡ some recovery_hint_fallback_unavailable)

guard_optional-IsCurated : (o : Option String) → IsCurated (guard_optional o)
unfolding guard_optional guard_id
guard_optional-IsCurated none = (inl refl, refl)
guard_optional-IsCurated (some id) = ground arith

-- Every refusal of the guard carries one of the five known reasons and the recovery hint
-- `fallback_unavailable`.
pub guard_capability-IsCurated : (input : CapabilityGuardInput) → IsCurated (guard_capability input)
unfolding guard_capability
guard_capability-IsCurated input = guard_optional-IsCurated input.capability_id

-- The choice of `capability_id_for_plan`, for any outcome of its three tests.
plan_choice :
    (a b c : Bool)
    → is_executable_today (
        or_else
          (if a
            then some assistant_demo_echo
            else if b
            then some assistant_demo_wait
            else if c
            then some assistant_plan_demo_action
            else none)
          assistant_plan_demo_action)
      ≡ true
unfolding is_executable_today
plan_choice true _ _ = refl
plan_choice false true _ = refl
plan_choice false false true = refl
plan_choice false false false = refl

plan_executable : (kind : String) → is_executable_today (capability_id_for_plan kind) ≡ true
unfolding capability_id_for_plan
plan_executable kind = plan_choice _ _ _

-- Whatever text names the demo kind, the plan's capability is executable: the guard never stops a
-- demo plan.
pub guard_demo_kind_allows : (kind : String) → guard_demo_kind kind ≡ allow
unfolding guard_demo_kind guard_optional
guard_demo_kind_allows kind = guard_id_complete (capability_id_for_plan kind) (plan_executable kind)

-- Of the interaction kinds the guard allows `open_application` and `focus_window` only.
pub guard_interaction_kind_iff :
    (kind : InteractionKind)
    → (guard_interaction_kind kind ≡ allow) ↔ ((kind ≡ open_application) ⊎ (kind ≡ focus_window))
unfolding guard_interaction_kind is_known_capability_id is_executable_today trim
guard_interaction_kind_iff kind = ground arith

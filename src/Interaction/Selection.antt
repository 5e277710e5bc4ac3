-- ===== src/Interaction/Selection.antt =====
-- core/src/interaction/selection.rs: validation of a selected target, and its mapping to an action
-- target.
use smolit_assistant.Base.{
  String, Bool, true, false, not, ◌||◌, ◌≡◌, refl, ap, ◌∙◌, ◌⊎◌, inl, inr, Option, none, some, ◌==◌,
  eq_iff, is_empty, trim, or_option, Bool-cases, ◌>>=◌, if◌then◌else◌, arith,
}
use Prim.Native.String.{◌++◌}
use smolit_assistant.Base.Text.Trim.{trim_idem, trim_check_idem}
use smolit_assistant.Messages.{
  ActionTarget, application, window, ui_element, region, unknown_target, SelectedTarget,
}

pub data SelectionError : Type 0 where
  empty_name empty_role invalid_confidence : SelectionError

unfoldable pub error_message : SelectionError → String
error_message empty_name = "selected target requires a non-empty name"
error_message empty_role = "selected target requires a non-empty role"
error_message invalid_confidence = "selected target confidence must be 'verified' or 'discovered'"

pub data Normalized : Type 0 where
  ok : SelectedTarget → Normalized
  err : SelectionError → Normalized

abbrev pub default_source : String
default_source = "accessibility"

abbrev pub or_default : String → String → String
or_default s d = if is_empty s then d else s

-- `map(trim)` and `filter(non-empty)`.
unfoldable pub clean_optional : Option String → Option String
clean_optional o = do s ← o; if is_empty (trim s) then none else some (trim s)

unfoldable pub is_confidence : String → Bool
is_confidence c = c == "verified" || c == "discovered"

-- The target with every field cleaned.
unfoldable pub cleaned : SelectedTarget → String → SelectedTarget
cleaned t fallback_id = record {
  id = or_default (trim t.id) fallback_id;
  name = trim t.name;
  role = trim t.role;
  source = or_default (trim t.source) default_source;
  confidence = trim t.confidence;
  matched_hint = clean_optional t.matched_hint;
  app_name = clean_optional t.app_name;
}

unfoldable pub normalize_with_fallback_id : SelectedTarget → String → Normalized
normalize_with_fallback_id t fallback_id =
    if is_empty (trim t.name)
    then err empty_name
    else if is_empty (trim t.role)
    then err empty_role
    else if not (is_confidence (trim t.confidence))
    then err invalid_confidence
    else ok (cleaned t fallback_id)

unfoldable pub to_action_target : SelectedTarget → ActionTarget
to_action_target t =
    if t.role == "application"
    then application t.name t.matched_hint
    else if t.role == "window"
    then window (some t.name) (or_option t.app_name t.matched_hint)
    else if t.role == "ui_element"
    then ui_element t.role (some t.name) t.matched_hint
    else if t.role == "region"
    then region (some t.name) t.matched_hint
    else unknown_target

unfoldable pub short_label : SelectedTarget → String
short_label t = t.name ++ (" (" ++ (t.role ++ (", " ++ (t.confidence ++ ")"))))

-- A target as the core may hold it: trimmed, with a name, a role and a known confidence.
pub record IsClean (t : SelectedTarget) : Type 0 where
  pub named : (is_empty t.name ≡ false) × (trim t.name ≡ t.name)
  pub with_role : (is_empty t.role ≡ false) × (trim t.role ≡ t.role)
  pub confident : (t.confidence ≡ "verified") ⊎ (t.confidence ≡ "discovered")

confidence_known : (c : String) → is_confidence c ≡ true → (c ≡ "verified") ⊎ (c ≡ "discovered")
unfolding is_confidence
confidence_known c h = ground (arith, eq_iff c "verified", eq_iff c "discovered")

-- What an accepted target passed, and what became of it.
record Passed (t : SelectedTarget) (u : SelectedTarget) (fallback_id : String) : Type 0 where
  name_there : is_empty (trim t.name) ≡ false
  role_there : is_empty (trim t.role) ≡ false
  confidence_there : is_confidence (trim t.confidence) ≡ true
  result : u ≡ cleaned t fallback_id

normalize-Passed :
    (t u : SelectedTarget) (fallback_id : String)
    → normalize_with_fallback_id t fallback_id ≡ ok u
    → Passed t u fallback_id
unfolding normalize_with_fallback_id
normalize-Passed t u fallback_id h = ground arith

-- A target that is accepted has a non-empty trimmed name and role, and its confidence is the
-- client's, trimmed, and one of the two known words: selection never raises `discovered` to
-- `verified`.
pub normalize-IsClean :
    (t u : SelectedTarget) (fallback_id : String)
    → normalize_with_fallback_id t fallback_id ≡ ok u
    → IsClean u × (u.confidence ≡ trim t.confidence)
unfolding cleaned
normalize-IsClean t u fallback_id h =
    let p = normalize-Passed t u fallback_id h in
    rw p.result (
      record {
        named = (p.name_there, trim_idem t.name);
        with_role = (p.role_there, trim_idem t.role);
        confident = confidence_known (trim t.confidence) p.confidence_there;
      },
      refl,
    )

clean_optional_idem : (o : Option String) → clean_optional (clean_optional o) ≡ clean_optional o
unfolding clean_optional
clean_optional_idem o =
    trim_check_idem (λ t. if is_empty t then none else some t) (λ t id e. ground arith) o

-- A field that falls back on a trimmed, non-empty default is stable.
default_stable :
    (s d e : String)
    → is_empty d ≡ false
    → trim d ≡ d
    → or_default (trim (or_default (trim s) d)) e ≡ or_default (trim s) d
default_stable s d e full stable = elim (Bool-cases (is_empty (trim s))) [
  | inl bare ↦ rw (bare, if◌then◌else◌) (rw (stable, full))
  | inr there ↦ rw (there, if◌then◌else◌) (rw (trim_idem s, there))
]

cleaned_idem :
    (t : SelectedTarget) (fallback_id other : String)
    → is_empty fallback_id ≡ false
    → trim fallback_id ≡ fallback_id
    → cleaned (cleaned t fallback_id) other ≡ cleaned t fallback_id
unfolding cleaned
cleaned_idem t fallback_id other full stable = λ i. record {
  id = default_stable t.id fallback_id other full stable i;
  name = trim_idem t.name i;
  role = trim_idem t.role i;
  source = default_stable t.source default_source default_source refl source_trimmed i;
  confidence = trim_idem t.confidence i;
  matched_hint = clean_optional_idem t.matched_hint i;
  app_name = clean_optional_idem t.app_name i;
}
  where
    source_trimmed : trim default_source ≡ default_source
    source_trimmed = unfold trim in refl

accepts :
    (t : SelectedTarget) (fallback_id : String)
    → is_empty (trim t.name) ≡ false
    → is_empty (trim t.role) ≡ false
    → is_confidence (trim t.confidence) ≡ true
    → normalize_with_fallback_id t fallback_id ≡ ok (cleaned t fallback_id)
unfolding normalize_with_fallback_id
accepts t fallback_id n r c = ground arith

-- Normalising an accepted target again accepts it unchanged, whatever the second fallback
-- identifier, if the first was a trimmed, non-empty text.
pub normalize_idem :
    (t u : SelectedTarget) (fallback_id other : String)
    → is_empty fallback_id ≡ false
    → trim fallback_id ≡ fallback_id
    → normalize_with_fallback_id t fallback_id ≡ ok u
    → normalize_with_fallback_id u other ≡ ok u
normalize_idem t u fallback_id other full stable h =
    let p = normalize-Passed t u fallback_id h in
    rw p.result (
      accepts (cleaned t fallback_id) other (unfold cleaned in rw (trim_idem t.name) p.name_there)
        (unfold cleaned in rw (trim_idem t.role) p.role_there)
        (unfold cleaned in rw (trim_idem t.confidence) p.confidence_there)
      ∙ ap ok (cleaned_idem t fallback_id other full stable))

-- ===== src/Audit/Sanitized.antt =====
-- The sanitizer of core/src/audit/event.rs.
use smolit_assistant.Base.{
  ℕ, ◌≤◌, ◌≡◌, refl, ap, inl, inr, String, count, true, false, Option, none, some, List, In, any,
  all, is_empty, trim, to_ascii_lowercase, ◌==◌, Bool-cases, if◌then◌else◌, arith,
}
use smolit_assistant.Base.Text.Trim.{
  trim_check_idem, trim-shorten, is_empty-shorten, count-shorten, shorten_of_short,
}
use smolit_assistant.Base.Text.Listed.{whitelist_idem, any-In_iff}
use smolit_assistant.Kinds.{known_risks}
use smolit_assistant.Plan
use smolit_assistant.Plan.Fields.{sanitize_risk_known, sanitize_risk_fixed}
use smolit_assistant.Capabilities.{known_capability_ids}
use smolit_assistant.Capabilities.Vocabulary.{
  sanitize_capability_id_idem, sanitize_capability_id-In,
}
use smolit_assistant.Audit.Correlation.Generated.{sanitize_correlation_id_idem}
use smolit_assistant.Audit.{
  AuditFields, sanitized, non_empty, sanitize_risk, sanitize_result, sanitize_source,
  sanitize_summary, known_sources, known_results, max_summary_chars,
}

abbrev check_id : String → Option String
check_id t = if is_empty t then none else some t

check_id_same : (t id : String) → check_id t ≡ some id → t ≡ id
check_id_same t id h = ground arith

non_empty_idem : (raw : Option String) → non_empty (non_empty raw) ≡ non_empty raw
unfolding non_empty
non_empty_idem raw = trim_check_idem check_id check_id_same raw

abbrev lower : String → String
lower s = to_ascii_lowercase (trim s)

sources_lower : all (λ k. lower k == k) known_sources ≡ true
unfolding trim to_ascii_lowercase
sources_lower = refl

results_lower : all (λ k. lower k == k) known_results ≡ true
unfolding trim to_ascii_lowercase
results_lower = refl

source_idem : (raw : Option String) → sanitize_source (sanitize_source raw) ≡ sanitize_source raw
unfolding sanitize_source
source_idem raw = whitelist_idem lower known_sources sources_lower raw

result_idem : (raw : Option String) → sanitize_result (sanitize_result raw) ≡ sanitize_result raw
unfolding sanitize_result
result_idem raw = whitelist_idem lower known_results results_lower raw

summary_idem :
    (raw : Option String) → sanitize_summary (sanitize_summary raw) ≡ sanitize_summary raw
unfolding sanitize_summary
summary_idem none = refl
summary_idem (some s) = elim (Bool-cases (is_empty (trim s))) [
  | inl bare ↦ rw (bare, if◌then◌else◌)
  | inr full ↦
      rw (full, if◌then◌else◌)
        (rw (trim-shorten max_summary_chars s, is_empty-shorten max_summary_chars (trim s) full)
          (ap some (
            shorten_of_short max_summary_chars _
              (count-shorten max_summary_chars (trim s) (omega arith)))))
]

risk_idem : (raw : Option String) → sanitize_risk (sanitize_risk raw) ≡ sanitize_risk raw
unfolding sanitize_risk
risk_idem none = refl
risk_idem (some s) = elim (Bool-cases (is_empty (Plan.sanitize_risk s))) [
  | inl bare ↦ rw (bare, if◌then◌else◌)
  | inr full ↦
      rw (full, if◌then◌else◌)
        (rw (sanitize_risk_fixed (Plan.sanitize_risk s) (sanitize_risk_known s), full))
]

-- Sanitizing the fields of an audit event a second time changes nothing.
pub sanitized_idem : (f : AuditFields) → sanitized (sanitized f) ≡ sanitized f
unfolding sanitized
sanitized_idem f = λ i. record {
  action_id = non_empty_idem f.action_id i;
  approval_id = non_empty_idem f.approval_id i;
  risk = risk_idem f.risk i;
  result = result_idem f.result i;
  source = source_idem f.source i;
  summary = summary_idem f.summary i;
  correlation_id = sanitize_correlation_id_idem f.correlation_id i;
  capability_id = sanitize_capability_id_idem f.capability_id i;
}

-- A value that is absent or stands in a list.
abbrev pub Within : List String → Option String → Type 0
Within ks none = Unit
Within ks (some s) = In s ks

abbrev pub Short : ℕ → Option String → Type 0
Short limit none = Unit
Short limit (some s) = (is_empty s ≡ false) × (count s ≤ limit)

-- What the store may hold: curated words, and a short summary.
pub record IsSanitized (f : AuditFields) : Type 0 where
  pub risk_known : Within known_risks f.risk
  pub result_known : Within known_results f.result
  pub source_known : Within known_sources f.source
  pub capability_known : Within known_capability_ids f.capability_id
  pub summary_short : Short max_summary_chars f.summary

whitelisted :
    (n : String) (ks : List String) → Within ks (if any (λ k. k == n) ks then some n else none)
whitelisted n ks = elim (Bool-cases (any (λ k. k == n) ks)) [
  | inl known ↦ rw (known, if◌then◌else◌) ((any-In_iff n ks).0 known)
  | inr other ↦ rw (other, if◌then◌else◌) tt
]

Within-of :
    (o : Option String) (ks : List String) → ((s : String) → o ≡ some s → In s ks) → Within ks o
Within-of none ks h = tt
Within-of (some s) ks h = h s refl

risk-Within : (raw : Option String) → Within known_risks (sanitize_risk raw)
unfolding sanitize_risk
risk-Within none = tt
risk-Within (some s) = elim (Bool-cases (is_empty (Plan.sanitize_risk s))) [
  | inl bare ↦ rw (bare, if◌then◌else◌) tt
  | inr full ↦ rw (full, if◌then◌else◌) (sanitize_risk_known s)
]

result-Within : (raw : Option String) → Within known_results (sanitize_result raw)
unfolding sanitize_result
result-Within none = tt
result-Within (some s) = whitelisted (lower s) known_results

source-Within : (raw : Option String) → Within known_sources (sanitize_source raw)
unfolding sanitize_source
source-Within none = tt
source-Within (some s) = whitelisted (lower s) known_sources

summary-Short : (raw : Option String) → Short max_summary_chars (sanitize_summary raw)
unfolding sanitize_summary
summary-Short none = tt
summary-Short (some s) = elim (Bool-cases (is_empty (trim s))) [
  | inl bare ↦ rw (bare, if◌then◌else◌) tt
  | inr full ↦
      rw (full, if◌then◌else◌)
        (
          is_empty-shorten max_summary_chars (trim s) full,
          count-shorten max_summary_chars (trim s) (omega arith),
        )
]

-- Whatever the fields hold, after sanitizing the risk, the result, the source and the capability
-- are absent or stand in their lists, and the summary is absent or has 1 to 80 characters.
pub sanitized-IsSanitized : (f : AuditFields) → IsSanitized (sanitized f)
unfolding sanitized
sanitized-IsSanitized f = record {
  risk_known = risk-Within f.risk;
  result_known = result-Within f.result;
  source_known = source-Within f.source;
  capability_known = Within-of _ known_capability_ids (sanitize_capability_id-In f.capability_id);
  summary_short = summary-Short f.summary;
}

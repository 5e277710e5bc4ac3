-- ===== src/Plan/Fields.antt =====
-- The fields that the constructor of core/src/actions/plan.rs makes of arbitrary texts.
use smolit_assistant.Base.{
  ℕ, ◌≤◌, String, count, Bool, true, false, ◌==◌, ◌≡◌, refl, ◌∙◌, inl, inr, In, all, test-In,
  eq_iff, is_empty, trim, shorten, to_ascii_lowercase, not, Bool-cases, if◌then◌else◌, arith,
}
use smolit_assistant.Base.Text.Listed.{clamp-In}
use smolit_assistant.Base.Text.Trim.{count-shorten, shorten-trim_idem}
use smolit_assistant.Kinds.{known_demo_kinds, known_risks, default_demo_kind, risk_medium}
use smolit_assistant.Plan.{
  sanitize_risk, sanitize_kind, trim_to, or_default, new, DemoPlan, planned, max_title_chars,
  max_summary_chars, default_title, default_summary,
}

pub sanitize_risk_known : (raw : String) → In (sanitize_risk raw) known_risks
unfolding sanitize_risk
sanitize_risk_known raw =
    clamp-In (to_ascii_lowercase (trim raw)) risk_medium known_risks (inr (inl refl))

pub sanitize_kind_known : (raw : String) → In (sanitize_kind raw) known_demo_kinds
unfolding sanitize_kind
sanitize_kind_known raw =
    clamp-In (to_ascii_lowercase (trim raw)) default_demo_kind known_demo_kinds
      (inr (inr (inl refl)))

risk_check : all (λ r. sanitize_risk r == r) known_risks ≡ true
unfolding sanitize_risk
risk_check = refl

kind_check : all (λ k. sanitize_kind k == k) known_demo_kinds ≡ true
unfolding sanitize_kind
kind_check = refl

pub sanitize_risk_fixed : (r : String) → In r known_risks → sanitize_risk r ≡ r
sanitize_risk_fixed r m =
    (eq_iff _ r).0 (test-In (λ k. sanitize_risk k == k) known_risks risk_check m)

pub sanitize_kind_fixed : (k : String) → In k known_demo_kinds → sanitize_kind k ≡ k
sanitize_kind_fixed k m =
    (eq_iff _ k).0 (test-In (λ j. sanitize_kind j == j) known_demo_kinds kind_check m)

trimmed_check : all (λ r. not (is_empty (trim r))) known_risks ≡ true
unfolding trim
trimmed_check = refl

-- The second clamp of the risk in `DemoPlan::new` never acts.
risk_nonempty : (raw : String) → is_empty (trim (sanitize_risk raw)) ≡ false
risk_nonempty raw = ground (
  arith,
  test-In (λ r. not (is_empty (trim r))) known_risks trimmed_check (sanitize_risk_known raw),
)

abbrev final_risk : String → String
final_risk raw = let r = sanitize_risk raw in if is_empty (trim r) then risk_medium else r

final_risk_lem : (raw : String) → final_risk raw ≡ sanitize_risk raw
final_risk_lem raw = rw (risk_nonempty raw)

final_risk_idem : (raw : String) → final_risk (final_risk raw) ≡ final_risk raw
final_risk_idem raw = rw (final_risk_lem raw) (
    final_risk_lem (sanitize_risk raw)
    ∙ sanitize_risk_fixed (sanitize_risk raw) (sanitize_risk_known raw))

module _ (limit : ℕ) (d : String) (positive : 1 ≤ limit) (solid : is_empty d ≡ false) where
  filled : String → String
  filled raw = or_default (trim_to raw limit) d

  filled_bounds :
      (raw : String)
      → count d ≤ limit
      → (is_empty (filled raw) ≡ false) × (count (filled raw) ≤ limit)
  unfolding filled trim_to
  filled_bounds raw small = elim (Bool-cases (is_empty (shorten limit (trim raw)))) [
    | inl bare ↦ rw (bare, if◌then◌else◌) (solid, small)
    | inr full ↦ rw (full, if◌then◌else◌) (full, count-shorten limit (trim raw) positive)
  ]

  filled_idem : (raw : String) → trim_to d limit ≡ d → filled (filled raw) ≡ filled raw
  unfolding filled trim_to
  filled_idem raw stable = elim (Bool-cases (is_empty (shorten limit (trim raw)))) [
    | inl bare ↦ rw (bare, if◌then◌else◌) (rw (stable, solid))
    | inr full ↦ rw (full, if◌then◌else◌) (rw (shorten-trim_idem limit raw positive, full))
  ]

-- A plan that the approval card can show: texts that are there and within their limits, a kind and
-- a risk of the vocabulary, nothing run yet.
pub record IsPresentable (p : DemoPlan) : Type 0 where
  pub titled : is_empty p.title ≡ false
  pub title_short : count p.title ≤ max_title_chars
  pub summarised : is_empty p.summary ≡ false
  pub summary_short : count p.summary ≤ max_summary_chars
  pub kind_known : In p.kind known_demo_kinds
  pub risk_known : In p.risk known_risks
  pub fresh : p.status ≡ planned

-- Whatever texts a client sends, the constructor yields a plan with a non-empty title of at most 80
-- characters, a non-empty summary of at most 140, a kind and a risk of the fixed lists, and the
-- status `planned`.
pub new-IsPresentable :
    (id title summary kind risk : String) (b : Bool)
    → IsPresentable (new id title summary kind risk b)
unfolding new filled
new-IsPresentable id title summary kind risk b =
    let t = filled_bounds 80 default_title (omega arith) refl title (omega arith) in
    let s = filled_bounds 140 default_summary (omega arith) refl summary (omega arith) in
    record {
      titled = t.0;
      title_short = t.1;
      summarised = s.0;
      summary_short = s.1;
      kind_known = sanitize_kind_known kind;
      risk_known = rw (risk_nonempty risk, if◌then◌else◌) (sanitize_risk_known risk);
      fresh = refl;
    }

-- Building a plan again from the fields of a plan changes nothing.
pub new_idem :
    (id title summary kind risk : String) (b : Bool)
    → let p = new id title summary kind risk b in new id p.title p.summary p.kind p.risk b ≡ p
unfolding new filled
new_idem id title summary kind risk b = λ i. record {
  action_id = id;
  title = filled_idem 80 default_title (omega arith) refl title (unfold trim_to in refl) i;
  summary = filled_idem 140 default_summary (omega arith) refl summary (unfold trim_to in refl) i;
  kind = sanitize_kind_fixed (sanitize_kind kind) (sanitize_kind_known kind) i;
  risk = final_risk_idem risk i;
  requires_approval = b;
  status = planned;
}

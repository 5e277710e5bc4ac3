-- ===== src/App/AuditWords.antt =====
-- The words that the flows of core/src/app.rs write as an audit result, against the list of
-- core/src/audit/event.rs.
use smolit_assistant.Base.{◌≡◌, refl, ◌↔◌, none, some}
use smolit_assistant.Messages.{
  ApprovalDecision, approved, denied, cancelled, timed_out, decision_str,
}
use smolit_assistant.Audit.{sanitize_result}
use smolit_assistant.App.Lifecycle.{decision_result}

-- The word that the demo planner writes for a decision survives the sanitizer, except for a timeout, whose
-- result is dropped; the word that the interaction path writes survives for every decision.
pub decision_words :
    (d : ApprovalDecision)
    → ((sanitize_result (some (decision_str d)) ≡ none) ↔ (d ≡ timed_out))
      × (sanitize_result (some (decision_result d)) ≡ some (decision_result d))
unfolding sanitize_result decision_str
decision_words approved = ((λ h. cc, λ h. cc), refl)
decision_words denied = ((λ h. cc, λ h. cc), refl)
decision_words cancelled = ((λ h. cc, λ h. cc), refl)
decision_words timed_out = ((λ h. refl, λ h. refl), refl)

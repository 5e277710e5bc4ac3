-- ===== src/App/Targets.antt =====
-- Selection, and the answers to approvals, of core/src/app.rs.
use smolit_assistant.Base.{String, Option, none, some, List, [], ◌∷◌, or_option}
use Prim.Native.String
use smolit_assistant.Messages.{
  ApprovalDecision, SelectedTarget, OutgoingMessage, error, target_selected, target_cleared,
}
use smolit_assistant.Interaction.Selection.{
  Normalized, ok, err, normalize_with_fallback_id, error_message,
}
use smolit_assistant.Approvals
use smolit_assistant.Approvals.{PendingApprovalError, unknown_id, closed}
use smolit_assistant.App.State.{App, next_selection_id}

-- The error text, or `none` for `Ok(())`.
unfoldable pub resolution_error : String → Option PendingApprovalError → Option String
resolution_error approval_id none = none
resolution_error approval_id (some unknown_id) = some (
    String.◌++◌ "no pending approval with id "
      (String.◌++◌ approval_id " (already resolved or unknown)"))
resolution_error approval_id (some closed) =
    some (String.◌++◌ "approval " (String.◌++◌ approval_id " was already closed"))

module _ {W : Type 0} where
  unfoldable pub store_selection : Normalized → App W → List OutgoingMessage × App W
  unfolding error_message
  store_selection (err e) s = (error (error_message e) ∷ [], s)
  store_selection (ok t) s = (target_selected t ∷ [], record s { selected_target = some t })

  unfoldable pub select_target : SelectedTarget → App W → List OutgoingMessage × App W
  unfolding next_selection_id normalize_with_fallback_id store_selection
  select_target target s =
      let (fallback_id, s1) = next_selection_id s in
      store_selection (normalize_with_fallback_id target fallback_id) s1

  unfoldable pub clear_target : App W → List OutgoingMessage × App W
  clear_target s = (target_cleared s.selected_target ∷ [], record s { selected_target = none })

  unfoldable pub resolve_approval : String → ApprovalDecision → App W → Option String × App W
  unfolding Approvals.resolve resolution_error
  resolve_approval approval_id decision s =
      let (refusal, r) = Approvals.resolve approval_id decision s.pending_approvals in
      (resolution_error approval_id refusal, record s { pending_approvals = r })

-- `InteractionFocusTarget` of core/src/ipc/protocol.rs: a window (name, title, application), or an
-- application.
pub data InteractionFocusTarget : Type 0 where
  window_focus : Option String → Option String → Option String → InteractionFocusTarget
  application_focus : String → InteractionFocusTarget

-- The title and the application of the action: `title` goes before `name`.
unfoldable pub focus_arguments : InteractionFocusTarget → Option String × Option String
focus_arguments (window_focus name title app) = (or_option title name, app)
focus_arguments (application_focus name) = (none, some name)

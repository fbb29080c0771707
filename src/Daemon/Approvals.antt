-- ===== src/Daemon/Approvals.antt =====
-- The decision on a task that waits for an approval, handle_approval_decision in devitd/src/main.rs.
use devit.Prelude.{true, Option, none, some, List, [], ◌∷◌, ◌++◌, if◌then◌else◌}
use devit.Text.{Text, text, text_eq}
use devit.Tasks.{get, remove, unwrap_or}
use devit.Daemon.{Platform, Env, State, Msg, PendingApproval, Outcome}
use devit.Daemon.Policy.{str_of}
use devit.Daemon.Details.{trimmed, parse_task_details}
use devit.Daemon.Clients.{or_null}
use devit.Daemon.Grant.{entry_of, return_to_of, journalled, proceed_with_delegation}
use devit.Daemon.Delegate.{fail_both}
use devit.Daemon.Acks.{done}

module _ {Value : Type 0} (p : Platform Value) where
  abbrev pub decision_of : Msg Value → Text
  decision_of msg = unwrap_or (text "unknown") (str_of p (p.get (text "status") msg.payload))

  abbrev pub note_of : Msg Value → Option Text
  note_of msg = trimmed (str_of p (p.get (text "note") msg.payload))

  -- The field of a note, where there is one.
  abbrev pub note_field : Option Text → List (Text × Value)
  note_field none = []
  note_field (some note) = (text "note", p.string note) ∷ []

  unfoldable pub refusal_summary : (note : Option Text) (task_id tool : Text) → Text
  refusal_summary none task_id tool =
      text "Approval denied for task " ++ (task_id ++ (text " (tool: " ++ (tool ++ text ")")))
  refusal_summary (some note) task_id tool =
      text "Approval denied for task " ++ (task_id ++ (text ": " ++ note))

  unfoldable pub refusal_artifacts :
      (task_id tool approver approval_id : Text) (note : Option Text) → Value
  refusal_artifacts task_id tool approver approval_id note = p.object (
      (text "summary", p.string (refusal_summary note task_id tool))
      ∷ (
        text "details",
        p.object (
            (text "reason", p.string (text "approval_denied"))
            ∷ (text "tool", p.string tool)
            ∷ (text "task_id", p.string task_id)
            ∷ (text "approver", p.string approver)
            ∷ note_field note),
      )
      ∷ (
        text "metadata",
        p.object (
            (
              text "failure",
              p.object (
                  (text "reason", p.string (text "approval_denied"))
                  ∷ (text "tool", p.string tool)
                  ∷ (text "approver", p.string approver)
                  ∷ (text "approval_id", p.string approval_id)
                  ∷ note_field note),
            )
            ∷ []),
      )
      ∷ [])

  unfoldable pub decision_meta : (decision tool task_id : Text) → Msg Value → Value
  decision_meta decision tool task_id msg = p.object (
      (text "decision", p.string decision)
      ∷ (text "tool", p.string tool)
      ∷ (text "task_id", p.string task_id)
      ∷ (text "note", or_null p (p.get (text "note") msg.payload))
      ∷ [])

module _ {Value Worker : Type 0} (p : Platform Value) where
  unfoldable pub grant :
      Env → Msg Value → PendingApproval Value → State Value Worker → State Value Worker
  grant env msg pending state =
      let original = pending.original_msg in
      proceed_with_delegation p env original pending.task_id original.to (return_to_of p original)
        pending.tool true
        (parse_task_details p (p.get (text "task") original.payload) pending.task_id)
        (journalled
          (entry_of env (text "POLICY") msg.msg_id msg.from (text "orchestrator")
            (decision_meta p (text "granted") pending.tool pending.task_id msg))
          state)

  unfoldable pub refuse :
      Env → Msg Value → PendingApproval Value → State Value Worker → State Value Worker
  refuse env msg pending state =
      let original = pending.original_msg in
      fail_both p env original.from (return_to_of p original) pending.task_id original.to
        (refusal_artifacts p pending.task_id pending.tool msg.from msg.msg_id (note_of p msg))
        (parse_task_details p (p.get (text "task") original.payload) pending.task_id)
        (journalled
          (entry_of env (text "POLICY") msg.msg_id msg.from (text "orchestrator")
            (decision_meta p (text "denied") pending.tool pending.task_id msg))
          state)

  -- The approval is taken from the state whatever the decision is.
  unfoldable pub handle_approval_decision :
      Env → Msg Value → State Value Worker → Outcome Value Worker
  handle_approval_decision env msg state =
      let taken : State Value Worker = record state {
        pending_approvals = remove msg.msg_id state.pending_approvals;
      } in
      elim (get msg.msg_id state.pending_approvals) [
        | none ↦ done [] taken
        | some pending ↦ done [] (
            if text_eq (decision_of p msg) (text "granted")
            then grant env msg pending taken
            else if text_eq (decision_of p msg) (text "denied")
            then refuse env msg pending taken
            else taken)
      ]

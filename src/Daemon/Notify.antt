-- ===== src/Daemon/Notify.antt =====
-- The report of a worker in devitd/src/main.rs, handle_notify: an acknowledgement, the end of a lease, or a
-- report on a task that has none.
use devit.Prelude.{ℕ, Option, none, some, List, [], ◌∷◌, if◌then◌else◌}
use devit.Text.{Text, text}
use devit.Tasks.{DelegatedTask, get, remove, unwrap_or}
use devit.Daemon.{Platform, Env, State, Lease, Msg, Effect, Outcome, run_hook}
use devit.Daemon.Signing.{sign_msg}
use devit.Daemon.Store.{finalize_task, add_notification}
use devit.Daemon.Outgoing.{new_msg}
use devit.Daemon.Cleanup.{take_task}
use devit.Daemon.Grant.{entry_of, return_to_of, journalled}
use devit.Daemon.Reports.{
  task_id_of, status_text, is_ack, parts_of, leased_task, late_task, report_meta,
}
use devit.Daemon.Acks.{done, handle_ack}

-- self.leases.remove(id).or_else(|| self.expired_leases.remove(id))
unfoldable pub take_lease :
    {Value Worker : Type 0} → Text → State Value Worker → Option Lease × State Value Worker
take_lease task_id state = elim (get task_id state.leases) [
  | some lease ↦ (some lease, record state { leases = remove task_id state.leases })
  | none ↦ (
    get task_id state.expired_leases,
    record state { expired_leases = remove task_id state.expired_leases },
  )
]

module _ {Value Worker : Type 0} (p : Platform Value) where
  unfoldable pub report_hook :
      (utc : ℕ) (task_id worker return_target : Text)
      → (working_dir : Option Text) → Msg Value
      → State Value Worker
      → List (Effect Value Worker)
  report_hook utc task_id worker return_target working_dir msg state = elim state.notify_hook [
    | none ↦ []
    | some hook ↦
        run_hook hook record {
          task_id = task_id;
          status = status_text p msg;
          worker = worker;
          return_to = return_target;
          summary = (parts_of p msg).summary;
          working_dir = working_dir;
          details = (parts_of p msg).details;
          evidence = (parts_of p msg).evidence;
          timestamp = p.rfc3339 utc;
          metadata = (parts_of p msg).metadata;
        }
        ∷ []
  ]

  -- What both kinds of report end with: the task is put away, and the notification signed and queued.
  unfoldable pub conclude :
      Env
      → (task_id return_target : Text) → Option Lease
      → Msg Value
      → DelegatedTask Value
      → State Value Worker
      → Outcome Value Worker
  conclude env task_id return_target lease msg task state =
      let kept = finalize_task task state in
      let worker : Text = elim lease [ some l ↦ l.assigned_to | none ↦ msg.from ] in
      let working_dir : Option Text = elim lease [ some l ↦ l.working_dir | none ↦ none ] in
      elim (sign_msg p
        (new_msg env 0 (text "NOTIFY") (text "orchestrator") return_target msg.payload)
        kept.secret) [
          | none ↦ done [] kept
          | some notification ↦
              done (report_hook env.utc task_id worker return_target working_dir msg kept) (
                journalled
                  (entry_of env (text "NOTIFY") task_id msg.from return_target
                    (report_meta p lease msg))
                  (add_notification return_target notification kept))
        ]

  unfoldable pub report_leased :
      Env → (task_id : Text) → Lease → Msg Value → State Value Worker → Outcome Value Worker
  report_leased env task_id lease msg state =
      let taken = take_task task_id state in
      conclude env task_id (unwrap_or lease.original_from (return_to_of p msg)) (some lease) msg
        (leased_task p env.utc task_id lease msg taken.0) taken.1

  unfoldable pub report_late :
      Env → (task_id : Text) → Msg Value → State Value Worker → Outcome Value Worker
  report_late env task_id msg state =
      let taken = take_task task_id state in
      conclude env task_id (unwrap_or msg.from (return_to_of p msg)) none msg
        (late_task p env.utc task_id msg taken.0) taken.1

  -- What is left of a report that is no acknowledgement.
  unfoldable pub handle_report :
      Env → (task_id : Text) → Msg Value → State Value Worker → Outcome Value Worker
  handle_report env task_id msg state =
      let (lease_opt, taken) = take_lease task_id state in
      elim lease_opt [
        | some lease ↦ report_leased env task_id lease msg taken
        | none ↦ report_late env task_id msg taken
      ]

  unfoldable pub handle_notify : Env → Msg Value → State Value Worker → Outcome Value Worker
  handle_notify env msg state =
      if is_ack p msg
      then handle_ack env (task_id_of p msg) state
      else handle_report env (task_id_of p msg) msg state

-- ===== src/Daemon/Authority.antt =====
-- Which messages lead to a lease: what handle_message of devitd/src/main.rs allows.
use devit.Prelude.{
  ◌≡◌, ap, ◌∙◌, sym, subst, Bool, true, false, ◌||◌, Option, some, arith, ◌⊎◌, inl, inr,
}
use devit.Text.{Text, text, text_eq}
use devit.Tasks.{get, remove, insert, DelegatedTask, is_finished}
use devit.Daemon.{Platform, Env, State, Lease, Msg, Outcome, PendingApproval, TaskDetails}
use devit.Daemon.Policy.{eval, allow}
use devit.Daemon.Details.{parse_task_details}
use devit.Daemon.Signing.{sign_msg, verify_hmac_detailed, is_valid}
use devit.Daemon.Store.{
  prune_completed, finalize_task, add_notification, is_client_alive, get_notifications,
  build_snapshot, insert_active_task,
}
use devit.Daemon.Outgoing.{new_msg}
use devit.Daemon.Screenshot.{prepare_job}
use devit.Daemon.Cleanup.{take_task}
use devit.Daemon.Clients.{
  accept, registered, client_version, handle_register, beat, handle_heartbeat, handle_poll,
  handle_status_request,
}
use devit.Daemon.Grant.{proceed_with_delegation}
use devit.Daemon.Delegate.{
  tool_of, deny_task, fail_both, handle_approval_request, start_task, handle_delegate,
}
use devit.Daemon.Acks.{by_marker, handle_ack}
use devit.Daemon.Reports.{task_id_of, is_ack}
use devit.Daemon.Notify.{
  take_lease, conclude, report_leased, report_late, handle_report, handle_notify,
}
use devit.Daemon.Approvals.{decision_of, grant, refuse, handle_approval_decision}
use devit.Daemon.Handle.{Outside, handle_screenshot, handle_message}
use devit.Daemon.Dispatch.{handle_message_all, if_all, option_all, decision_all, sum_all}
use devit.Tasks.Keys.{has, has-insert}
use devit.Daemon.WellFormed.{IsWithin, remove-IsWithin}
use devit.Daemon.Frames.{Framed, prune_completed-Framed, take_task-Framed, fail_both-Framed}

module _ {Value Worker : Type 0} (p : Platform Value) where
  -- The sender asks for the task and the policy allows it, or a decision grants a task that waits.
  abbrev pub IsPermitted : Text → Msg Value → State Value Worker → Type 0
  IsPermitted k msg s =
      ((text_eq msg.msg_type (text "DELEGATE") ≡ true)
        × (text_eq msg.msg_id k ≡ true)
        × (eval p (tool_of p msg) msg.payload ≡ allow))
      ⊎ ((text_eq msg.msg_type (text "APPROVAL_DECISION") ≡ true)
          × (text_eq (decision_of p msg) (text "granted") ≡ true)
          × ((pending : PendingApproval Value) × (get msg.msg_id s.pending_approvals ≡ some pending)
              × (text_eq pending.task_id k ≡ true)))

  -- Every lease of the second state that the first one does not hold has a permission.
  abbrev Granted : Text → Msg Value → State Value Worker → State Value Worker → Type 0
  Granted k msg s t = has k s.leases ≡ false → has k t.leases ≡ true → IsPermitted k msg s

  -- No lease is new.
  abbrev Shrinks : State Value Worker → State Value Worker → Type 0
  Shrinks s t = IsWithin t.leases s.leases

  granted :
      (k : Text) (msg : Msg Value) (s t : State Value Worker) → Shrinks s t → Granted k msg s t
  granted k msg s t shrinks fresh there = cc (fresh, shrinks k there)

  Framed-Shrinks : (s t : State Value Worker) → Framed s t → Shrinks s t
  Framed-Shrinks s t framed k there =
      subst (λ l. has k l ≡ true) (ap (λ (x : State Value Worker). x.leases) framed) there

  fail_both-Shrinks :
      (env : Env) (from : Text) (return_to : Option Text) (task_id worker : Text)
      (artifacts : Value) (details : TaskDetails Value) (s : State Value Worker)
      → Shrinks s (fail_both p env from return_to task_id worker artifacts details s)
  fail_both-Shrinks env from return_to task_id worker artifacts details s =
      Framed-Shrinks s (fail_both p env from return_to task_id worker artifacts details s)
        (fail_both-Framed p env from return_to task_id worker artifacts details s)

  finalize_task-Shrinks :
      (task : DelegatedTask Value) (s : State Value Worker) → Shrinks s (finalize_task task s)
  unfolding finalize_task
  finalize_task-Shrinks task s =
      let stored : State Value Worker = record s {
        tasks_completed = insert task.id task s.tasks_completed;
      } in
      if_all (Shrinks s) (is_finished task.status)
        (λ e. Framed-Shrinks stored (prune_completed stored) (prune_completed-Framed stored))
        (λ k h. h)

  conclude-Shrinks :
      (env : Env) (task_id target : Text) (lease : Option Lease) (msg : Msg Value)
      (task : DelegatedTask Value) (s : State Value Worker)
      → Shrinks s (conclude p env task_id target lease msg task s).state
  unfolding conclude add_notification
  conclude-Shrinks env task_id target lease msg task s =
      option_all (λ (o : Outcome Value Worker). Shrinks s o.state)
        (sign_msg p (new_msg env 0 (text "NOTIFY") (text "orchestrator") target msg.payload)
          (finalize_task task s).secret)
        (λ e. finalize_task-Shrinks task s) (λ signed e. finalize_task-Shrinks task s)

  take_task-Shrinks : (task_id : Text) (s : State Value Worker) → Shrinks s (take_task task_id s).1
  take_task-Shrinks task_id s =
      Framed-Shrinks (record s { tasks_active = remove task_id s.tasks_active }) _
        (take_task-Framed task_id s)

  take_lease-Shrinks :
      (task_id : Text) (s : State Value Worker) → Shrinks s (take_lease task_id s).1
  unfolding take_lease
  take_lease-Shrinks task_id s k =
      option_all
        (λ (r : Option Lease × State Value Worker). has k r.1.leases ≡ true → has k s.leases ≡ true)
        (get task_id s.leases) (λ e h. h)
        (λ lease e. remove-IsWithin task_id s.leases s.leases (λ j h. h) k)

  handle_notify-Shrinks :
      (env : Env) (msg : Msg Value) (s : State Value Worker)
      → Shrinks s (handle_notify p env msg s).state
  unfolding handle_notify handle_report report_leased report_late handle_ack by_marker
  handle_notify-Shrinks env msg s k =
      let P = λ (o : Outcome Value Worker). has k o.state.leases ≡ true → has k s.leases ≡ true in
      let id = task_id_of p msg in
      let taken = (take_lease id s).1 in
      let back : IsWithin (take_task id taken).1.leases s.leases =
        λ j h. take_lease-Shrinks id s j (take_task-Shrinks id taken j h) in
      if_all P (is_ack p msg)
        (λ e.
          option_all P (get id s.ack_writers) (λ e h. h)
            (λ writer e. if_all P env.socket_written (λ e h. h) (λ h. h)))
        (option_all P (take_lease id s).0 (λ e h. back k (conclude-Shrinks env id _ _ msg _ _ k h))
          (λ lease e h. back k (conclude-Shrinks env id _ _ msg _ _ k h)))

  handle_register-Shrinks :
      (env : Env) (msg : Msg Value) (s : State Value Worker)
      → Shrinks s (handle_register p env msg s).state
  unfolding handle_register accept registered
  handle_register-Shrinks env msg s k =
      let P = λ (o : Outcome Value Worker). has k o.state.leases ≡ true → has k s.leases ≡ true in
      option_all P s.expected_worker_version (λ e h. h)
        (λ expected e.
          option_all P (client_version p msg) (λ e h. h)
            (λ actual e. if_all P (text_eq actual expected) (λ e h. h) (λ h. h)))

  handle_heartbeat-Shrinks :
      (env : Env) (msg : Msg Value) (s : State Value Worker)
      → Shrinks s (handle_heartbeat p env msg s).state
  unfolding handle_heartbeat get_notifications beat
  handle_heartbeat-Shrinks env msg s =
      option_all (Shrinks s) (get msg.from s.clients) (λ e k h. h) (λ client e k h. h)

  -- Only the task that is handed over gets a lease.
  proceed_with_delegation-lease :
      (env : Env) (msg : Msg Value) (task_id worker : Text) (return_to : Option Text) (tool : Text)
      (notify_worker : Bool) (details : TaskDetails Value) (s : State Value Worker) (k : Text)
      → has k s.leases ≡ false
      → has k
          (proceed_with_delegation p env msg task_id worker return_to tool notify_worker details
            s).leases
        ≡ true
      → text_eq task_id k ≡ true
  unfolding proceed_with_delegation insert_active_task add_notification
  proceed_with_delegation-lease env msg task_id worker return_to tool true details s k fresh h =
      let either : (text_eq task_id k || has k s.leases) ≡ true =
        sym (has-insert k task_id _ s.leases) ∙ h in
      ground (arith, either, fresh)
  proceed_with_delegation-lease env msg task_id worker return_to tool false details s k fresh h =
      let either : (text_eq task_id k || has k s.leases) ≡ true =
        sym (has-insert k task_id _ s.leases) ∙ h in
      ground (arith, either, fresh)

  handle_delegate-Granted :
      (env : Env) (k : Text) (msg : Msg Value) (s : State Value Worker)
      → text_eq msg.msg_type (text "DELEGATE") ≡ true
      → Granted k msg s (handle_delegate p env msg s).state
  unfolding handle_delegate deny_task handle_approval_request add_notification start_task
  handle_delegate-Granted env k msg s asked =
      let P = λ (o : Outcome Value Worker). Granted k msg s o.state in
      let details = parse_task_details p (p.get (text "task") msg.payload) msg.msg_id in
      decision_all P (eval p (tool_of p msg) msg.payload)
        (λ e.
          granted k msg s (deny_task p env msg details s).state
            (fail_both-Shrinks env msg.from _ _ _ _ details _))
        (λ e fresh h. cc (fresh, h))
        (λ e.
          option_all P (get msg.to s.worker_configs)
            (λ gone.
              if_all P (is_client_alive env.instant msg.to s)
                (λ alive fresh h. inl (
                  asked,
                  proceed_with_delegation-lease env msg _ _ _ _ true details s k fresh h,
                  e,
                ))
                (λ fresh h. cc (fresh, h)))
            (λ config found fresh h.
              inl (
                asked,
                proceed_with_delegation-lease env msg _ _ _ _ false details s k fresh h,
                e,
              )))

  handle_approval_decision-Granted :
      (env : Env) (k : Text) (msg : Msg Value) (s : State Value Worker)
      → text_eq msg.msg_type (text "APPROVAL_DECISION") ≡ true
      → Granted k msg s (handle_approval_decision p env msg s).state
  unfolding handle_approval_decision grant refuse
  handle_approval_decision-Granted env k msg s decided =
      option_all (λ (o : Outcome Value Worker). Granted k msg s o.state)
        (get msg.msg_id s.pending_approvals) (λ e fresh h. cc (fresh, h))
        (λ pending found.
          if_all (Granted k msg s) (text_eq (decision_of p msg) (text "granted"))
            (λ e fresh h. inr (
              decided,
              e,
              (
                pending,
                found,
                proceed_with_delegation-lease env pending.original_msg _ _ _ _ true _ _ k fresh h,
              ),
            ))
            (if_all (Granted k msg s) (text_eq (decision_of p msg) (text "denied"))
              (λ e.
                granted k msg s
                  (refuse p env msg pending
                    (record s { pending_approvals = remove msg.msg_id s.pending_approvals }))
                  (fail_both-Shrinks env _ _ _ _ _ _ _))
              (λ fresh h. cc (fresh, h))))

module _ {Value Worker : Type 0} (p : Platform Value) (outside : Outside Value) where
  -- A task has a lease behind a message and had none before it only where the message carries a valid
  -- signature and either delegates this very task and the policy allows it, or is a decision that grants a
  -- task of this name which waits for an approval under the message's identifier.
  pub handle_message-authority :
      (env : Env) (k : Text) (msg : Msg Value) (s : State Value Worker)
      → has k s.leases ≡ false
      → has k (handle_message p outside env msg s).state.leases ≡ true
      → (is_valid (verify_hmac_detailed p msg s.secret) ≡ true) × IsPermitted p k msg s
  unfolding handle_poll get_notifications handle_status_request handle_screenshot
  handle_message-authority env k msg s fresh =
      let P = λ (o : Outcome Value Worker).
        has k o.state.leases ≡ true
        → (is_valid (verify_hmac_detailed p msg s.secret) ≡ true) × IsPermitted p k msg s in
      handle_message_all p outside env msg s P (λ h. cc (fresh, h)) (λ h. cc (fresh, h))
        (λ valid. record {
          register = λ h. cc (fresh, handle_register-Shrinks p env msg s k h);
          heartbeat = λ h. cc (fresh, handle_heartbeat-Shrinks p env msg s k h);
          delegate = λ e h. (valid, handle_delegate-Granted p env k msg s e fresh h);
          notify = λ h. cc (fresh, handle_notify-Shrinks p env msg s k h);
          decision = λ e h. (valid, handle_approval_decision-Granted p env k msg s e fresh h);
          poll = λ h. cc (fresh, h);
          status =
              option_all P (outside.to_value (build_snapshot s)) (λ e h. cc (fresh, h))
                (λ v e h. cc (fresh, h));
          screenshot =
              sum_all P (prepare_job p outside.temp_dir env s.screenshot).0
                (λ message h. cc (fresh, h)) (λ job h. cc (fresh, h));
          unknown = λ h. cc (fresh, h);
        })

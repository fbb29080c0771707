-- ===== src/Daemon/Kept.antt =====
-- The handlers and the clean-up of devitd/src/main.rs keep the daemon's states well-formed.
use devit.Prelude.{
  ℕ, ◌≡◌, ap, true, false, Option, List, [], ◌∷◌, Bool-cases, Option-cases, inl, inr, suc,
}
use devit.Text.{Text, text, text_eq}
use devit.Tasks.{DelegatedTask, get, remove}
use devit.Tasks.Maps.{get-remove}
use devit.Daemon.{Platform, Env, State, Lease, Msg, Effect, Outcome}
use devit.Daemon.Policy.{eval}
use devit.Daemon.Details.{parse_task_details}
use devit.Daemon.Signing.{sign_msg}
use devit.Daemon.Store.{finalize_task, add_notification, is_client_alive, get_notifications}
use devit.Daemon.Outgoing.{new_msg}
use devit.Daemon.Cleanup.{expire, expire_lease, expire_leases, remove_clients, cleanup_expired}
use devit.Daemon.Clients.{
  accept, registered, client_version, handle_register, beat, handle_heartbeat,
}
use devit.Daemon.Delegate.{tool_of, deny_task, handle_approval_request, start_task, handle_delegate}
use devit.Daemon.Acks.{by_marker, handle_ack}
use devit.Daemon.Reports.{task_id_of, is_ack}
use devit.Daemon.Notify.{
  take_lease, conclude, report_leased, report_late, handle_report, handle_notify,
}
use devit.Daemon.Approvals.{decision_of, grant, refuse, handle_approval_decision}
use devit.Daemon.Dispatch.{if_all, option_all, decision_all}
use devit.Tasks.Keys.{has, is_some}
use devit.Daemon.WellFormed.{
  IsWellFormed, remove-IsWithin, finalize_task-IsWellFormed, take_task-IsWellFormed,
  take_lease-IsWellFormed, notify_signed-IsWellFormed, fail_both-IsWellFormed,
  proceed_with_delegation-IsWellFormed,
}

module _ {Value Worker : Type 0} (p : Platform Value) where
  conclude-IsWellFormed :
      (env : Env) (task_id target : Text) (lease : Option Lease) (msg : Msg Value)
      (task : DelegatedTask Value) (s : State Value Worker)
      → IsWellFormed s
      → IsWellFormed (conclude p env task_id target lease msg task s).state
  unfolding conclude add_notification
  conclude-IsWellFormed env task_id target lease msg task s h =
      let kept = finalize_task-IsWellFormed task s h in
      option_all (λ (o : Outcome Value Worker). IsWellFormed o.state)
        (sign_msg p (new_msg env 0 (text "NOTIFY") (text "orchestrator") target msg.payload)
          (finalize_task task s).secret)
        (λ e. kept) (λ signed e. kept)

  pub handle_report-IsWellFormed :
      (env : Env) (task_id : Text) (msg : Msg Value) (s : State Value Worker)
      → IsWellFormed s
      → IsWellFormed (handle_report p env task_id msg s).state
  unfolding handle_report report_leased report_late
  handle_report-IsWellFormed env task_id msg s h =
      let (kept, unleased) = take_lease-IsWellFormed task_id s h in
      let taken = take_task-IsWellFormed task_id (take_lease task_id s).1 unleased kept in
      elim (Option-cases (take_lease task_id s).0) [
        | inl gone ↦ rw (gone, handle_report) (conclude-IsWellFormed env task_id _ _ msg _ _ taken)
        | inr (lease, found) ↦
            rw (found, handle_report) (conclude-IsWellFormed env task_id _ _ msg _ _ taken)
      ]

  pub handle_ack-IsWellFormed :
      (env : Env) (task_id : Text) (s : State Value Worker)
      → IsWellFormed s
      → IsWellFormed (handle_ack env task_id s).state
  unfolding handle_ack by_marker
  handle_ack-IsWellFormed env task_id s h = elim (Option-cases (get task_id s.ack_writers)) [
    | inl gone ↦ rw (gone, handle_ack) h
    | inr (writer, found) ↦
        rw (found, handle_ack)
          (elim (Bool-cases env.socket_written) [
            | inl written ↦ rw written h
            | inr refused ↦ rw refused h
          ])
  ]

  pub handle_notify-IsWellFormed :
      (env : Env) (msg : Msg Value) (s : State Value Worker)
      → IsWellFormed s
      → IsWellFormed (handle_notify p env msg s).state
  unfolding handle_notify
  handle_notify-IsWellFormed env msg s h =
      if_all (λ (o : Outcome Value Worker). IsWellFormed o.state) (is_ack p msg)
        (λ e. handle_ack-IsWellFormed env (task_id_of p msg) s h)
        (handle_report-IsWellFormed env (task_id_of p msg) msg s h)

  pub handle_delegate-IsWellFormed :
      (env : Env) (msg : Msg Value) (s : State Value Worker)
      → IsWellFormed s
      → IsWellFormed (handle_delegate p env msg s).state
  unfolding handle_delegate deny_task handle_approval_request add_notification start_task
  handle_delegate-IsWellFormed env msg s h =
      let P = λ (o : Outcome Value Worker). IsWellFormed o.state in
      let details = parse_task_details p (p.get (text "task") msg.payload) msg.msg_id in
      decision_all P (eval p (tool_of p msg) msg.payload)
        (λ e. fail_both-IsWellFormed p env msg.from _ _ _ _ details _ h) (λ e. h)
        (λ e.
          option_all P (get msg.to s.worker_configs)
            (λ gone.
              if_all P (is_client_alive env.instant msg.to s)
                (λ alive. proceed_with_delegation-IsWellFormed p env msg _ _ _ _ true details s h)
                h)
            (λ config found.
              proceed_with_delegation-IsWellFormed p env msg _ _ _ _ false details s h))

  pub handle_approval_decision-IsWellFormed :
      (env : Env) (msg : Msg Value) (s : State Value Worker)
      → IsWellFormed s
      → IsWellFormed (handle_approval_decision p env msg s).state
  unfolding handle_approval_decision grant refuse
  handle_approval_decision-IsWellFormed env msg s h =
      elim (Option-cases (get msg.msg_id s.pending_approvals)) [
        | inl gone ↦ rw (gone, handle_approval_decision) h
        | inr (pending, found) ↦
            rw (found, handle_approval_decision)
              (if_all IsWellFormed (text_eq (decision_of p msg) (text "granted"))
                (λ e. proceed_with_delegation-IsWellFormed p _ _ _ _ _ _ true _ _ h)
                (if_all IsWellFormed (text_eq (decision_of p msg) (text "denied"))
                  (λ e. fail_both-IsWellFormed p _ _ _ _ _ _ _ _ h) h))
      ]

  pub handle_register-IsWellFormed :
      (env : Env) (msg : Msg Value) (s : State Value Worker)
      → IsWellFormed s
      → IsWellFormed (handle_register p env msg s).state
  unfolding handle_register accept registered
  handle_register-IsWellFormed env msg s h =
      let P = λ (o : Outcome Value Worker). IsWellFormed o.state in
      option_all P s.expected_worker_version (λ e. h)
        (λ expected e.
          option_all P (client_version p msg) (λ e. h)
            (λ actual e. if_all P (text_eq actual expected) (λ e. h) h))

  pub handle_heartbeat-IsWellFormed :
      (env : Env) (msg : Msg Value) (s : State Value Worker)
      → IsWellFormed s
      → IsWellFormed (handle_heartbeat p env msg s).state
  unfolding handle_heartbeat get_notifications beat
  handle_heartbeat-IsWellFormed env msg s h =
      option_all IsWellFormed (get msg.from s.clients) (λ e. h) (λ client e. h)

  expire-IsWellFormed :
      (env : Env) (task_id : Text) (lease : Lease) (s : State Value Worker)
      → has task_id s.leases ≡ false
      → IsWellFormed s
      → IsWellFormed (expire p env task_id lease s)
  unfolding expire
  expire-IsWellFormed env task_id lease s unleased h =
      notify_signed-IsWellFormed p _ _ _
        (finalize_task-IsWellFormed _ _ (take_task-IsWellFormed task_id _ unleased h))

  expire_leases-IsWellFormed :
      (envs : ℕ → Env) (ids : List Text) (s : State Value Worker)
      → IsWellFormed s
      → IsWellFormed (expire_leases p envs ids s).1
  unfolding expire_leases expire_lease
  expire_leases-IsWellFormed envs [] s h = h
  expire_leases-IsWellFormed envs (task_id ∷ ids) s ((opened, within), archived) =
      expire_leases-IsWellFormed (λ n. envs (suc n)) ids (expire_lease p (envs 0) task_id s).1
        (option_all (λ (r : List (Effect Value Worker) × State Value Worker). IsWellFormed r.1)
          (get task_id s.leases) (λ e. ((opened, within), archived))
          (λ lease e.
            expire-IsWellFormed (envs 0) task_id lease
              (record s { leases = remove task_id s.leases })
              (ap is_some (get-remove task_id s.leases))
              ((opened, remove-IsWithin task_id s.leases s.tasks_active within), archived)))

  remove_clients-IsWellFormed :
      (ids : List Text) (s : State Value Worker)
      → IsWellFormed s
      → IsWellFormed (remove_clients p ids s)
  unfolding remove_clients
  remove_clients-IsWellFormed [] s h = h
  remove_clients-IsWellFormed (ident ∷ ids) s h = remove_clients-IsWellFormed ids _ h

  pub cleanup_expired-IsWellFormed :
      (now later : ℕ) (envs : ℕ → Env) (s : State Value Worker)
      → IsWellFormed s
      → IsWellFormed (cleanup_expired p now later envs s).1
  unfolding cleanup_expired
  cleanup_expired-IsWellFormed now later envs s h =
      remove_clients-IsWellFormed _ _ (expire_leases-IsWellFormed envs _ s h)

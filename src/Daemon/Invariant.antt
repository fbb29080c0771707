-- ===== src/Daemon/Invariant.antt =====
-- What holds in every state that the daemon of devitd/src/main.rs can reach.
use devit.Prelude.{ℕ, refl, Bool, Option, arith}
use devit.Text.{Text}
use devit.Tasks.{get}
use devit.Daemon.{Platform, Env, State, Msg, Outcome, WorkerTask, NotifyHook}
use devit.Daemon.Signing.{sign_msg}
use devit.Daemon.Store.{get_notifications, build_snapshot}
use devit.Daemon.Screenshot.{prepare_job}
use devit.Daemon.Cleanup.{cleanup_expired}
use devit.Daemon.Clients.{handle_poll, handle_status_request}
use devit.Daemon.Workers.{WorkerOutcome, worker_notification, worker_finished}
use devit.Daemon.Handle.{Outside, handle_screenshot, handle_message}
use devit.Daemon.Start.{WorkerSettings, new_state}
use devit.Daemon.Hooks.{prepare_ack, accept_ack}
use devit.Daemon.Dispatch.{handle_message_all, if_all, option_all, sum_all}
use devit.Daemon.WellFormed.{IsWellFormed}
use devit.Daemon.Kept.{
  handle_notify-IsWellFormed, handle_delegate-IsWellFormed, handle_approval_decision-IsWellFormed,
  handle_register-IsWellFormed, handle_heartbeat-IsWellFormed, cleanup_expired-IsWellFormed,
}

module _ {Value Worker : Type 0} (p : Platform Value) (outside : Outside Value) where
  handle_message-IsWellFormed :
      (env : Env) (msg : Msg Value) (s : State Value Worker)
      → IsWellFormed s
      → IsWellFormed (handle_message p outside env msg s).state
  unfolding handle_poll get_notifications handle_status_request handle_screenshot
  handle_message-IsWellFormed env msg s h =
      let P = λ (o : Outcome Value Worker). IsWellFormed o.state in
      handle_message_all p outside env msg s P h h (λ valid. record {
        register = handle_register-IsWellFormed p env msg s h;
        heartbeat = handle_heartbeat-IsWellFormed p env msg s h;
        delegate = λ e. handle_delegate-IsWellFormed p env msg s h;
        notify = handle_notify-IsWellFormed p env msg s h;
        decision = λ e. handle_approval_decision-IsWellFormed p env msg s h;
        poll = h;
        status = option_all P (outside.to_value (build_snapshot s)) (λ e. h) (λ v e. h);
        screenshot =
            sum_all P (prepare_job p outside.temp_dir env s.screenshot).0 (λ message. h) (λ job. h);
        unknown = h;
      })

  worker_finished-IsWellFormed :
      (made handled : Env) (task : WorkerTask Value) (outcome : WorkerOutcome Value)
      (s : State Value Worker)
      → IsWellFormed s
      → IsWellFormed (worker_finished p made handled task outcome s)
  unfolding worker_finished
  worker_finished-IsWellFormed made handled task outcome s h =
      option_all IsWellFormed (sign_msg p (worker_notification p made task outcome) s.secret)
        (λ e. h) (λ msg e. handle_notify-IsWellFormed p handled msg s h)

  -- The states of a daemon that starts without tasks: messages, clean-ups, finished workers and
  -- connected hooks in any order, at any times.
  pub data Reaches : State Value Worker → Type 0 where
    start :
        (to_lowercase : Text → Text) (secret daemon_version : Text)
        (workers : WorkerSettings Worker) (hook : Option NotifyHook)
        → Reaches (new_state to_lowercase outside.temp_dir secret daemon_version workers hook)
    message :
        {s : State Value Worker} (env : Env) (msg : Msg Value)
        → Reaches s
        → Reaches (handle_message p outside env msg s).state
    cleanup :
        {s : State Value Worker} (now later : ℕ) (envs : ℕ → Env)
        → Reaches s
        → Reaches (cleanup_expired p now later envs s).1
    finished :
        {s : State Value Worker} (made handled : Env) (task : WorkerTask Value)
        (outcome : WorkerOutcome Value)
        → Reaches s
        → Reaches (worker_finished p made handled task outcome s)
    prepared :
        {s : State Value Worker} (pid task_id : Text) (bound : Bool)
        → Reaches s
        → Reaches (prepare_ack outside.temp_dir pid task_id bound s)
    accepted :
        {s : State Value Worker} (task_id : Text) (writer : ℕ)
        → Reaches s
        → Reaches (accept_ack task_id writer s)

  -- In every state that the daemon can reach each active task stands under its own id and has no final
  -- status, each completed task stands under its own id and has a final status, at most a thousand
  -- completed tasks are kept, and each lease belongs to an active task.
  pub Reaches-IsWellFormed : (s : State Value Worker) → Reaches s → IsWellFormed s
  unfolding new_state prepare_ack accept_ack get
  Reaches-IsWellFormed _ (start to_lowercase secret daemon_version workers hook) =
      ((refl, λ k h. h), (refl, omega arith))
  Reaches-IsWellFormed _ (message {s} env msg r) =
      handle_message-IsWellFormed env msg s (Reaches-IsWellFormed s r)
  Reaches-IsWellFormed _ (cleanup {s} now later envs r) =
      cleanup_expired-IsWellFormed p now later envs s (Reaches-IsWellFormed s r)
  Reaches-IsWellFormed _ (finished {s} made handled task outcome r) =
      worker_finished-IsWellFormed made handled task outcome s (Reaches-IsWellFormed s r)
  Reaches-IsWellFormed _ (prepared {s} pid task_id bound r) =
      let h = Reaches-IsWellFormed s r in if_all IsWellFormed bound (λ e. h) h
  Reaches-IsWellFormed _ (accepted {s} task_id writer r) = Reaches-IsWellFormed s r

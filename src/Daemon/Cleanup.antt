-- ===== src/Daemon/Cleanup.antt =====
-- The clean-up of devitd/src/main.rs, State::cleanup_expired, which runs every ten seconds.
use devit.Prelude.{ℕ, suc, ◌-◌, Bool, Option, none, some, List, [], ◌∷◌, ◌++◌, ltb, if◌then◌else◌}
use devit.Text.{Text, text}
use devit.Tasks.{DelegatedTask, get, remove, insert, unwrap_or}
use devit.Daemon.{Platform, Env, State, Lease, Client, Effect, run_hook, heartbeat_timeout}
use devit.Daemon.Store.{finalize_task}
use devit.Daemon.Outgoing.{new_msg, notify_signed}
use devit.Daemon.Timeout.{
  timeout_summary, timeout_details, timeout_metadata, timed_out, timeout_payload, timeout_entry,
}

-- The keys of the values that pass a test.
unfoldable pub keys_where : {A : Type 0} → (A → Bool) → List (Text × A) → List Text
keys_where test [] = []
keys_where test ((k, a) ∷ m) = let rest = keys_where test m in if test a then k ∷ rest else rest

abbrev pub is_overdue : (now : ℕ) → Lease → Bool
is_overdue now lease = ltb lease.deadline now

abbrev pub is_dead : (now : ℕ) → Client → Bool
is_dead now client = ltb heartbeat_timeout (now - client.last_heartbeat)

-- self.tasks_active.remove(id), and where it holds none self.tasks_completed.remove(id)
unfoldable pub take_task :
    {Value Worker : Type 0}
    → Text
    → State Value Worker
    → Option (DelegatedTask Value) × State Value Worker
take_task task_id state = elim (get task_id state.tasks_active) [
  | some task ↦ (some task, record state { tasks_active = remove task_id state.tasks_active })
  | none ↦ (
    get task_id state.tasks_completed,
    record state { tasks_completed = remove task_id state.tasks_completed },
  )
]

module _ {Value Worker : Type 0} (p : Platform Value) where
  unfoldable pub timeout_hook :
      (utc : ℕ) (task_id return_target : Text)
      → Lease
      → State Value Worker
      → List (Effect Value Worker)
  timeout_hook utc task_id return_target lease state = elim state.notify_hook [
    | none ↦ []
    | some hook ↦
        run_hook hook record {
          task_id = task_id;
          status = text "failed";
          worker = lease.assigned_to;
          return_to = return_target;
          summary = timeout_summary p;
          working_dir = lease.working_dir;
          details = some (timeout_details p utc lease);
          evidence = none;
          timestamp = p.rfc3339 utc;
          metadata = some (timeout_metadata p utc lease);
        }
        ∷ []
  ]

  -- The steps of the loop behind the removal of the lease.
  unfoldable pub expire : Env → (task_id : Text) → Lease → State Value Worker → State Value Worker
  expire env task_id lease state =
      let return_target = unwrap_or lease.original_from lease.return_to in
      let taken =
        take_task task_id
          (record state { expired_leases = insert task_id lease state.expired_leases }) in
      let told =
        notify_signed p return_target
          (new_msg env 0 (text "NOTIFY") lease.assigned_to return_target
            (timeout_payload p env.utc task_id return_target lease))
          (finalize_task (timed_out p env.utc task_id lease taken.0) taken.1) in
      record told {
        journal = told.journal ++ (timeout_entry p env task_id return_target lease ∷ []);
      }

  unfoldable pub expire_lease :
      Env → (task_id : Text) → State Value Worker → List (Effect Value Worker) × State Value Worker
  expire_lease env task_id state = elim (get task_id state.leases) [
    | none ↦ ([], state)
    | some lease ↦ (
      timeout_hook env.utc task_id (unwrap_or lease.original_from lease.return_to) lease state,
      expire env task_id lease (record state { leases = remove task_id state.leases }),
    )
  ]

  -- `envs` is what the turns of the loop read.
  unfoldable pub expire_leases :
      (ℕ → Env) → List Text → State Value Worker → List (Effect Value Worker) × State Value Worker
  expire_leases envs [] state = ([], state)
  expire_leases envs (task_id ∷ ids) state =
      let step = expire_lease (envs 0) task_id state in
      let rest = expire_leases (λ n. envs (suc n)) ids step.1 in (step.0 ++ rest.0, rest.1)

  unfoldable pub remove_clients : List Text → State Value Worker → State Value Worker
  remove_clients [] state = state
  remove_clients (ident ∷ ids) state = remove_clients ids (record state {
    clients = remove ident state.clients;
    pending_notifications = remove ident state.pending_notifications;
  })

  -- The clock is read for the leases, `now`, and again for the clients, `later`.
  unfoldable pub cleanup_expired :
      (now later : ℕ)
      → (ℕ → Env)
      → State Value Worker
      → List (Effect Value Worker) × State Value Worker
  cleanup_expired now later envs state =
      let expired = expire_leases envs (keys_where (is_overdue now) state.leases) state in
      (expired.0, remove_clients (keys_where (is_dead later) expired.1.clients) expired.1)

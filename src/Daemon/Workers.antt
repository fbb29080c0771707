-- ===== src/Daemon/Workers.antt =====
-- The end of a worker's run in devitd/src/main.rs: what handle_delegate's spawned task makes of the outcome.
use devit.Prelude.{ℕ, Bool, true, Option, none, some, List, [], ◌∷◌, ◌++◌, if◌then◌else◌}
use devit.Text.{Text, text}
use devit.Daemon.{Platform, Env, State, Msg, WorkerTask}
use devit.Daemon.Signing.{sign_msg}
use devit.Daemon.Outgoing.{new_msg}
use devit.Daemon.Notify.{handle_notify}

pub data WorkerStatus : Type 0 where
  completed failed : WorkerStatus

pub record WorkerOutcome (Value : Type 0) : Type 0 where
  pub status : WorkerStatus
  pub summary : Text
  pub details : Option Value
  pub evidence : Option Value
  pub truncated : Bool
  pub original_size : Option ℕ
  pub metadata : Option Value

abbrev pub worker_status : WorkerStatus → Text
worker_status WorkerStatus.completed = text "completed"
worker_status WorkerStatus.failed = text "failed"

module _ {Value : Type 0} (p : Platform Value) where
  abbrev pub optional : Text → Option Value → List (Text × Value)
  optional key none = []
  optional key (some v) = (key, v) ∷ []

  -- `metadata` is what the serialisation of the outcome's metadata gives.
  unfoldable pub build_worker_artifacts : (utc : ℕ) → WorkerOutcome Value → Value
  build_worker_artifacts utc outcome = p.object (
      (text "summary", p.string outcome.summary)
      ∷ (optional (text "details") outcome.details
          ++ (optional (text "evidence") outcome.evidence
              ++ ((if outcome.truncated
                    then (text "truncated", p.boolean true) ∷ elim outcome.original_size [
                      | none ↦ []
                      | some size ↦ (text "original_size", p.number size) ∷ []
                    ]
                    else [])
                  ++ (optional (text "metadata") outcome.metadata
                      ++ ((text "reported_at", p.string (p.rfc3339 utc)) ∷ []))))))

  unfoldable pub worker_notification : Env → WorkerTask Value → WorkerOutcome Value → Msg Value
  worker_notification env task outcome =
      record (new_msg env 0 (text "NOTIFY") task.delegated_to (text "orchestrator") (
        p.object (
          (text "task_id", p.string task.id)
          ∷ (text "status", p.string (worker_status outcome.status))
          ∷ (text "artifacts", build_worker_artifacts env.utc outcome)
          ∷ elim task.return_to [ none ↦ [] | some rt ↦ (text "return_to", p.string rt) ∷ [] ]))) {
            msg_id = task.id;
          }

module _ {Value Worker : Type 0} (p : Platform Value) where
  -- What the spawned run of a worker does at its end: the message is made in one environment, and handled in
  -- another.
  unfoldable pub worker_finished :
      (made handled : Env)
      → WorkerTask Value
      → WorkerOutcome Value
      → State Value Worker
      → State Value Worker
  worker_finished made handled task outcome state =
      elim (sign_msg p (worker_notification p made task outcome) state.secret) [
        | none ↦ state
        | some notify_msg ↦ (handle_notify p handled notify_msg state).state
      ]

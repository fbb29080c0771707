-- ===== src/Daemon/Outgoing.antt =====
-- The messages that the daemon of devitd/src/main.rs makes: replies, errors, and the notifications of
-- failure that it signs and queues.
use devit.Prelude.{ℕ, suc, true, none, some, [], ◌∷◌}
use devit.Text.{Text, text}
use devit.Tasks.{failed, DelegatedTask}
use devit.Daemon.{Platform, Env, State, Msg, TaskDetails}
use devit.Daemon.Details.{extract_notification_parts}
use devit.Daemon.Signing.{sign_msg}
use devit.Daemon.Store.{add_notification, finalize_task}

module _ {Value : Type 0} where
  -- A message that is not yet signed, with two new ids.
  unfoldable pub new_msg : Env → ℕ → (msg_type from to : Text) → Value → Msg Value
  new_msg env n msg_type from to payload = record {
    msg_type = msg_type;
    msg_id = env.uuid n;
    from = from;
    to = to;
    ts = env.ts;
    nonce = env.uuid (suc n);
    hmac = [];
    payload = payload;
  }

  -- The answer to a message.
  abbrev pub answer_to : Env → Text → Msg Value → Value → Msg Value
  answer_to env msg_type msg payload = new_msg env 0 msg_type (text "orchestrator") msg.from payload

module _ {Value : Type 0} (p : Platform Value) where
  unfoldable pub build_error_response : Env → Msg Value → (code message : Text) → Msg Value
  build_error_response env msg code message =
      answer_to env (text "ERR") msg
        (p.object ((text "code", p.string code) ∷ (text "message", p.string message) ∷ []))

  unfoldable pub failure_payload : (target task_id : Text) (artifacts : Value) → Value
  failure_payload target task_id artifacts = p.object (
      (text "task_id", p.string task_id)
      ∷ (text "status", p.string (text "failed"))
      ∷ (text "artifacts", artifacts)
      ∷ (text "return_to", p.string target)
      ∷ [])

  unfoldable pub failed_task :
      Env
      → (task_id delegated_to : Text) (artifacts : Value) → TaskDetails Value
      → DelegatedTask Value
  failed_task env task_id delegated_to artifacts task_details = record {
    id = task_id;
    goal = task_details.goal;
    delegated_to = delegated_to;
    created_at = env.utc;
    timeout_secs = task_details.timeout_secs;
    status = failed;
    context = task_details.context;
    watch_patterns = task_details.watch_patterns;
    last_activity = env.utc;
    notifications =
        record {
          received_at = env.utc;
          status = text "failed";
          summary = (extract_notification_parts p artifacts).summary;
          details = (extract_notification_parts p artifacts).details;
          evidence = none;
          auto_generated = true;
          metadata = (extract_notification_parts p artifacts).metadata;
        }
        ∷ [];
    working_dir = task_details.working_dir;
    response_format = task_details.response_format;
    model = task_details.model;
    model_resolved = none;
  }

module _ {Value Worker : Type 0} (p : Platform Value) where
  -- A message that cannot be signed is dropped.
  unfoldable pub notify_signed : Text → Msg Value → State Value Worker → State Value Worker
  notify_signed target msg state = elim (sign_msg p msg state.secret) [
    | none ↦ state
    | some signed ↦ add_notification target signed state
  ]

  unfoldable pub queue_failure_notification :
      Env
      → ℕ
      → (target task_id : Text) (artifacts : Value) → State Value Worker
      → State Value Worker
  queue_failure_notification env n target task_id artifacts state =
      notify_signed target
        (new_msg env n (text "NOTIFY") (text "orchestrator") target
          (failure_payload p target task_id artifacts))
        state

  unfoldable pub record_immediate_failure :
      Env
      → (target task_id delegated_to : Text) (artifacts : Value) → TaskDetails Value
      → State Value Worker
      → State Value Worker
  record_immediate_failure env target task_id delegated_to artifacts task_details state =
      finalize_task (failed_task p env task_id delegated_to artifacts task_details)
        (queue_failure_notification env 2 target task_id artifacts state)

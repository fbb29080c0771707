-- ===== src/Daemon/Requests.antt =====
-- A task that waits for an approval, from its request to the decision: handle_approval_request and
-- handle_approval_decision in devitd/src/main.rs together.
use devit.Prelude.{◌≡◌, ap, subst, sym, none, some, List, [], ◌∷◌, ◌++◌, ◌+◌}
use devit.Text.{Text, text, text_eq}
use devit.Tasks.{get, remove, unwrap_or, pending}
use devit.Tasks.Maps.{get-remove}
use devit.Daemon.{lease_ttl, Platform, Env, State, Msg, Outcome, PendingApproval, TaskDetails}
use devit.Daemon.Details.{parse_task_details}
use devit.Daemon.Store.{insert_active_task, add_notification}
use devit.Daemon.Grant.{return_to_of, proceed_with_delegation}
use devit.Daemon.Delegate.{tool_of}
use devit.Daemon.Approvals.{decision_of, grant, refuse, handle_approval_decision}
use devit.Daemon.Dispatch.{if_all, option_all}
use devit.Tasks.Keys.{remove_missing}
use devit.Daemon.Frames.{fail_both-Framed}

module _ {Value : Type 0} (p : Platform Value) where
  abbrev pub task_details_of : Msg Value → TaskDetails Value
  task_details_of msg = parse_task_details p (p.get (text "task") msg.payload) msg.msg_id

  -- What an approval waits with.
  abbrev waiting_for : Env → Msg Value → PendingApproval Value
  waiting_for env msg = record {
    task_id = msg.msg_id;
    original_msg = msg;
    tool = tool_of p msg;
    requested_at = env.instant;
  }

module _ {Value Worker : Type 0} (p : Platform Value) where
  -- The task is handed to its worker: it has a lease of the worker, it is active and pending, a message
  -- with the original payload stands at the end of the worker's queue, and nothing waits under the
  -- identifier of the approval. `queued` is what the queue held before.
  abbrev pub IsHandedOver :
      Env
      → Msg Value
      → (approval_id : Text) (queued : List (Msg Value)) → State Value Worker
      → Type 0
  IsHandedOver env msg approval_id queued s =
      let details = task_details_of p msg in
      (get msg.msg_id s.leases
        ≡ some (record {
          task_id = msg.msg_id;
          assigned_to = msg.to;
          original_from = msg.from;
          deadline = env.instant + lease_ttl;
          return_to = return_to_of p msg;
          working_dir = details.working_dir;
          response_format = details.response_format;
          model = details.model;
          model_resolved = none;
        }))
      × (get msg.msg_id s.tasks_active
          ≡ some (record {
            id = msg.msg_id;
            goal = details.goal;
            delegated_to = msg.to;
            created_at = env.utc;
            timeout_secs = details.timeout_secs;
            status = pending;
            context = details.context;
            watch_patterns = details.watch_patterns;
            last_activity = env.utc;
            notifications = [];
            working_dir = details.working_dir;
            response_format = details.response_format;
            model = details.model;
            model_resolved = none;
          }))
      × (get msg.to s.pending_notifications
          ≡ some (
              queued
              ++ record {
                msg_type = text "DELEGATE";
                msg_id = msg.msg_id;
                from = text "orchestrator";
                to = msg.to;
                ts = env.ts;
                nonce = env.uuid 1;
                hmac = [];
                payload = msg.payload;
              }
                ∷ []))
      × (get approval_id s.pending_approvals ≡ none)

  abbrev pub queue_of : Text → State Value Worker → List (Msg Value)
  queue_of client s = unwrap_or [] (get client s.pending_notifications)

  -- Nothing waits under the identifier of a decision that was made.
  decided_gone :
      (env : Env) (decision : Msg Value) (s : State Value Worker)
      → get decision.msg_id (handle_approval_decision p env decision s).state.pending_approvals
        ≡ none
  unfolding handle_approval_decision grant refuse proceed_with_delegation insert_active_task
      add_notification
  decided_gone env decision s =
      let gone = get-remove decision.msg_id s.pending_approvals in
      let P = λ (t : State Value Worker). get decision.msg_id t.pending_approvals ≡ none in
      let taken : State Value Worker = record s {
        pending_approvals = remove decision.msg_id s.pending_approvals;
      } in
      option_all (λ (o : Outcome Value Worker). P o.state) (get decision.msg_id s.pending_approvals)
        (λ e. gone)
        (λ pending e.
          if_all P (text_eq (decision_of p decision) (text "granted")) (λ e. gone)
            (if_all P (text_eq (decision_of p decision) (text "denied"))
              (λ e. subst P (sym (fail_both-Framed p env _ _ _ _ _ _ _)) gone) gone))

  -- A decision counts once: whatever it says and whether or not something waited for it, a second decision
  -- under the same identifier leaves the state as it is.
  pub handle_approval_decision-once :
      (env later : Env) (earlier again : Msg Value) (s : State Value Worker)
      → again.msg_id ≡ earlier.msg_id
      → (handle_approval_decision p later again
          (handle_approval_decision p env earlier s).state).state
        ≡ (handle_approval_decision p env earlier s).state
  unfolding handle_approval_decision
  handle_approval_decision-once env later earlier again s same =
      let decided = (handle_approval_decision p env earlier s).state in
      let gone =
        subst (λ id. get id decided.pending_approvals ≡ none) (sym same)
          (decided_gone env earlier s) in
      rw (gone, handle_approval_decision)
        (ap (λ waiting. record decided { pending_approvals = waiting })
          (remove_missing again.msg_id decided.pending_approvals gone))

-- ===== src/Daemon/Delegate.antt =====
-- The delegation of a task in devitd/src/main.rs: the policy's decision, the lease, and what the worker is
-- told.
use devit.Prelude.{Bool, true, false, Option, none, some, [], ◌∷◌, ◌++◌, if◌then◌else◌}
use devit.Text.{Text, text, text_eq, trim}
use devit.Tasks.{get, insert, unwrap_or}
use devit.Daemon.{
  Platform, Env, State, Msg, TaskDetails, WorkerTask, Outcome, silent, reply, run_worker,
}
use devit.Daemon.Policy.{
  str_of, task_field, eval, allow, deny, need_approval, create_approval_request,
}
use devit.Daemon.Details.{parse_task_details}
use devit.Daemon.Store.{add_notification, is_client_alive}
use devit.Daemon.Outgoing.{new_msg, answer_to, record_immediate_failure, queue_failure_notification}
use devit.Daemon.Clients.{answered}
use devit.Daemon.Grant.{entry_of, return_to_of, journalled, proceed_with_delegation}

unfoldable pub denial_summary : (tool : Text) → Text
denial_summary tool = text "Task denied by policy (tool: " ++ (tool ++ text ")")

module _ {Value : Type 0} (p : Platform Value) where
  abbrev pub tool_of : Msg Value → Text
  tool_of msg = unwrap_or (text "unknown") (str_of p (task_field p (text "action") msg.payload))

  unfoldable pub denial_details : (tool task_id worker goal : Text) → Value
  denial_details tool task_id worker goal = p.object (
      (text "reason", p.string (text "policy_denied"))
      ∷ (text "tool", p.string tool)
      ∷ (text "task_id", p.string task_id)
      ∷ (text "worker", p.string worker)
      ∷ (text "goal", p.string goal)
      ∷ [])

  unfoldable pub denial_artifacts : (tool task_id worker goal : Text) → Value
  denial_artifacts tool task_id worker goal = p.object (
      (text "summary", p.string (denial_summary tool))
      ∷ (text "details", denial_details tool task_id worker goal)
      ∷ (
        text "metadata",
        p.object (
            (
              text "failure",
              p.object (
                  (text "reason", p.string (text "policy_denied"))
                  ∷ (text "tool", p.string tool)
                  ∷ (text "task_id", p.string task_id)
                  ∷ []),
            )
            ∷ []),
      )
      ∷ [])

  unfoldable pub worker_task : Env → Msg Value → TaskDetails Value → WorkerTask Value
  worker_task env msg details = record {
    id = msg.msg_id;
    goal = details.goal;
    delegated_to = msg.to;
    working_dir = details.working_dir;
    timeout_secs = some details.timeout_secs;
    return_to = return_to_of p msg;
    response_format = details.response_format;
    time_queued = env.utc;
    model = details.model;
    context = details.context;
  }

module _ {Value Worker : Type 0} (p : Platform Value) where
  -- The failure is reported to the address for returns, and to the sender too where that is another one.
  unfoldable pub fail_both :
      Env
      → (from : Text) → Option Text
      → (task_id worker : Text) (artifacts : Value) → TaskDetails Value
      → State Value Worker
      → State Value Worker
  fail_both env from return_to task_id worker artifacts details state =
      let target = unwrap_or from return_to in
      let recorded = record_immediate_failure p env target task_id worker artifacts details state in
      if text_eq target from
      then recorded
      else queue_failure_notification p env 4 from task_id artifacts recorded

  unfoldable pub deny_task :
      Env → Msg Value → TaskDetails Value → State Value Worker → Outcome Value Worker
  deny_task env msg details state =
      answered
        (reply (
          answer_to env (text "ERR") msg (
            p.object (
              (text "code", p.string (text "E_POLICY_DENIED"))
              ∷ (text "message", p.string (denial_summary (tool_of p msg)))
              ∷ (text "details", denial_details p (tool_of p msg) msg.msg_id msg.to details.goal)
              ∷ []))))
        (fail_both env msg.from (return_to_of p msg) msg.msg_id msg.to
          (denial_artifacts p (tool_of p msg) msg.msg_id msg.to details.goal) details
          (journalled
            (entry_of env (text "POLICY") msg.msg_id msg.from (text "orchestrator") (
              p.object (
                (text "decision", p.string (text "deny"))
                ∷ (text "tool", p.string (tool_of p msg))
                ∷ (text "reason", p.string (text "policy_forbidden"))
                ∷ [])))
            state))

  unfoldable pub approver_of : State Value Worker → Text
  approver_of state = elim (trim state.approver_target) [
    | [] ↦ text "client:approver"
    | c ∷ cs ↦ state.approver_target
  ]

  unfoldable pub handle_approval_request :
      Env → Msg Value → (task_id tool : Text) → State Value Worker → State Value Worker
  handle_approval_request env msg task_id tool state =
      let approver = approver_of state in
      journalled
        (entry_of env (text "POLICY") (env.uuid 0) (text "orchestrator") approver (
          p.object (
            (text "decision", p.string (text "request_approval"))
            ∷ (text "tool", p.string tool)
            ∷ (text "task_id", p.string task_id)
            ∷ [])))
        (add_notification approver
          (new_msg env 0 (text "APPROVAL") (text "orchestrator") approver
            (create_approval_request p env.utc task_id tool msg.msg_id msg.payload))
          (record state {
            pending_approvals =
                insert (env.uuid 0)
                  record {
                    task_id = task_id;
                    original_msg = msg;
                    tool = tool;
                    requested_at = env.instant;
                  }
                  state.pending_approvals;
          }))

  -- A task that the policy allows.
  unfoldable pub start_task :
      Env → Msg Value → TaskDetails Value → State Value Worker → Outcome Value Worker
  start_task env msg details state =
      let start = λ (notify_worker : Bool).
        proceed_with_delegation p env msg msg.msg_id msg.to (return_to_of p msg) (tool_of p msg)
          notify_worker details state in
      elim (get msg.to state.worker_configs) [
        | some worker_cfg ↦ record {
          answer = silent;
          effects = run_worker worker_cfg (worker_task p env msg details) ∷ [];
          state = start false;
        }
        | none ↦
            if is_client_alive env.instant msg.to state
            then answered silent (start true)
            else answered silent state
      ]

  unfoldable pub handle_delegate : Env → Msg Value → State Value Worker → Outcome Value Worker
  handle_delegate env msg state =
      let details = parse_task_details p (p.get (text "task") msg.payload) msg.msg_id in
      elim (eval p (tool_of p msg) msg.payload) [
        | deny ↦ deny_task env msg details state
        | need_approval ↦
            answered silent (handle_approval_request env msg msg.msg_id (tool_of p msg) state)
        | allow ↦ start_task env msg details state
      ]

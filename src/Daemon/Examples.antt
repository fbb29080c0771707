-- ===== src/Daemon/Examples.antt =====
-- A daemon with one worker: a task that is delegated and forgotten, one that waits for an approval, and
-- screenshots.
use devit.Prelude.{ℕ, ◌≡◌, refl, ◌≤◌, ◌*◌, arith, true, false, none, some, List, [], ◌∷◌, ◌++◌, ◌⊎◌}
use devit.Text.{Text, text}
use devit.Tasks.{get, insert, second}
use devit.Daemon.{Env, State, Msg, Lease, ScreenshotControl, native, reply}
use devit.Daemon.Policy.{eval}
use devit.Daemon.Signing.{
  piped, sign_msg, canonical_body, checked, verify_hmac_detailed, is_valid, verify-sign,
  verify_hmac_detailed_shifted,
}
use devit.Daemon.Store.{insert_active_task, add_notification, get_notifications}
use devit.Daemon.Screenshot.{ScreenshotJob, prepare_job}
use devit.Daemon.Cleanup.{cleanup_expired}
use devit.Daemon.Clients.{handle_poll}
use devit.Daemon.Details.{parse_task_details, trimmed}
use devit.Daemon.Grant.{new_lease, proceed_with_delegation}
use devit.Daemon.Delegate.{start_task, handle_delegate}
use devit.Daemon.Approvals.{handle_approval_decision}
use devit.Daemon.Handle.{dispatch, handle_message}
use devit.Daemon.Start.{WorkerSettings, new_state}
use devit.Daemon.Samples.{Json, empty, str, field, platform, outside}
use devit.Tasks.Keys.{has}
use devit.Daemon.WellFormed.{IsWellFormed}
use devit.Daemon.Invariant.{start, message, cleanup, Reaches-IsWellFormed}
use devit.Daemon.Expiry.{IsEnded, cleanup_expired-IsEnded}
use devit.Daemon.Authority.{IsPermitted, handle_message-authority}
use devit.Daemon.Shots.{untouched, requested, granted_at, count_recent, Shots-limit}
use devit.Daemon.Queues.{handle_poll-first}
use devit.Daemon.Requests.{handle_approval_decision-once}

abbrev at : ℕ → Env
at instant = record {
  instant = instant;
  utc = instant;
  ts = 0;
  uuid = λ n. n ∷ [];
  socket_written = true;
  directory_error = none;
}

abbrev settings : WorkerSettings ℕ
settings = record {
  configs = (text "codex", 1) ∷ [];
  workspace_root = none;
  expected_worker_version = none;
  capability_enabled = true;
  rate_limit = record { max_actions = 1; per_seconds = 5 };
  screenshot = record { enabled = true; backend = native; format = []; output_dir = none };
  approval_target = [];
}

abbrev signed : Text → Text → Text → Json → Msg Json
signed msg_type msg_id to payload =
    let unsigned : Msg Json = record {
      msg_type = msg_type;
      msg_id = msg_id;
      from = text "ide";
      to = to;
      ts = 0;
      nonce = [];
      hmac = [];
      payload = payload;
    } in
    record unsigned {
      hmac =
          text "k"
          ++ piped msg_type (
              piped msg_id (piped (text "ide") (piped to (piped (0 ∷ []) (piped [] (text "{}"))))));
    }

abbrev task : Msg Json
task =
    signed (text "DELEGATE") (text "t1") (text "codex")
      (field (text "task") (field (text "action") (str (text "devit_snapshot")) empty) empty)

abbrev patch : Msg Json
patch =
    signed (text "DELEGATE") (text "t2") (text "codex")
      (field (text "task") (field (text "action") (str (text "devit_patch_apply")) empty) empty)

abbrev first_state : State Json ℕ
first_state = new_state (λ s. s) (text "/tmp") (text "k") (text "1") settings none

abbrev delegated : State Json ℕ
delegated = (handle_message platform outside (at 5) task first_state).state

abbrev late : ℕ
late = 1000000000000

Reaches-IsWellFormed_example : IsWellFormed (cleanup_expired platform late late at delegated).1
Reaches-IsWellFormed_example =
    Reaches-IsWellFormed platform outside (cleanup_expired platform late late at delegated).1 (
      cleanup late late at
        (message (at 5) task (start (λ s. s) (text "k") (text "1") settings none)))

abbrev lease : Lease
lease = record {
  task_id = text "t1";
  assigned_to = text "codex";
  original_from = text "ide";
  deadline = 900000000005;
  return_to = none;
  working_dir = none;
  response_format = none;
  model = none;
  model_resolved = none;
}

has_lease : get (text "t1") delegated.leases ≡ some lease
unfolding get handle_message verify_hmac_detailed checked canonical_body new_state dispatch
    handle_delegate eval start_task proceed_with_delegation insert_active_task insert new_lease
    parse_task_details trimmed
has_lease = refl

cleanup_expired-IsEnded_example :
    IsEnded (text "t1") lease (cleanup_expired platform late late at delegated).1
cleanup_expired-IsEnded_example =
    cleanup_expired-IsEnded platform late late at (text "t1") lease delegated has_lease
      (omega arith)

no_lease : has (text "t1") first_state.leases ≡ false
unfolding get new_state
no_lease = refl

task_signed : has (text "t1") delegated.leases ≡ true
unfolding get handle_message verify_hmac_detailed checked canonical_body new_state dispatch
    handle_delegate eval start_task proceed_with_delegation insert_active_task insert new_lease
    parse_task_details trimmed
task_signed = refl

handle_message-authority_example :
    (is_valid (verify_hmac_detailed platform task first_state.secret) ≡ true)
    × IsPermitted platform (text "t1") task first_state
handle_message-authority_example =
    handle_message-authority platform outside (at 5) (text "t1") task first_state no_lease
      task_signed

abbrev control : ScreenshotControl
control = record {
  enabled = true;
  backend = native;
  format = text "png";
  output_dir = text "/tmp/devit-screenshots";
  rate_limit = record { max_actions = 1; per_seconds = 5 };
  history = [];
  workspace_root = none;
}

abbrev shot : Env → (Text ⊎ ScreenshotJob) × ScreenshotControl
shot env = prepare_job platform (text "/tmp") env control

-- The second request comes two nanoseconds behind the first.
abbrev times : List ℕ
times =
    []
    ++ granted_at 7 (shot (at 7)).0
    ++ granted_at 9 (prepare_job platform (text "/tmp") (at 9) (shot (at 7)).1).0

Shots-limit_example : count_recent (5 * second) 9 times ≤ 1
Shots-limit_example =
    Shots-limit platform (text "/tmp") control 9 times
      (prepare_job platform (text "/tmp") (at 9) (shot (at 7)).1).1 9 refl (omega arith)
      (omega arith) (omega arith)
      (requested (at 9) (omega arith) (requested (at 7) (omega arith) untouched)) (omega arith)

is_signed : sign_msg platform task (text "k") ≡ some task
unfolding sign_msg canonical_body
is_signed = refl

verify-sign_example : is_valid (verify_hmac_detailed platform task (text "k")) ≡ true
verify-sign_example = verify-sign platform task task (text "k") (λ bytes. refl) is_signed

verify_hmac_detailed_shifted_example :
    verify_hmac_detailed platform
      (record task { msg_id = text "a"; from = piped (text "b") (text "c") })
      (text "k")
    ≡ verify_hmac_detailed platform
        (record task { msg_id = piped (text "a") (text "b"); from = text "c" })
        (text "k")
verify_hmac_detailed_shifted_example =
    verify_hmac_detailed_shifted platform task (text "a") (text "b") (text "c") (text "k")

abbrev waiting : State Json ℕ
waiting = record first_state { pending_notifications = (text "ide", task ∷ patch ∷ []) ∷ [] }

two_wait : get (text "ide") waiting.pending_notifications ≡ some (task ∷ patch ∷ [])
unfolding get
two_wait = refl

handle_poll-first_example :
    let polled = handle_poll platform task (add_notification (text "ide") patch waiting) in
    (polled.answer ≡ reply task) × ((get_notifications (text "ide") polled.state).0 ≡ [])
handle_poll-first_example = handle_poll-first platform task patch task (patch ∷ []) waiting two_wait

abbrev granting : Msg Json
granting = record task {
  msg_type = text "APPROVAL_DECISION";
  msg_id = 0 ∷ [];
  payload = field (text "status") (str (text "granted")) empty;
}

-- Another message reaches the worker between the request and the decision.
abbrev asked_state : State Json ℕ
asked_state =
    add_notification patch.to task (handle_delegate platform (at 5) patch first_state).state

handle_approval_decision-once_example :
    (handle_approval_decision platform
      (at 9)
      granting
      (handle_approval_decision platform (at 8) granting first_state).state).state
    ≡ (handle_approval_decision platform (at 8) granting first_state).state
handle_approval_decision-once_example =
    handle_approval_decision-once platform (at 8) (at 9) granting granting first_state refl

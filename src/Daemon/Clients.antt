-- ===== src/Daemon/Clients.antt =====
-- The handlers of devitd/src/main.rs that register a client, keep it alive and hand it what is queued,
-- and the reply to a request for the status.
use devit.Prelude.{Option, none, some, List, [], ◌∷◌, ◌++◌, map, if◌then◌else◌}
use devit.Text.{Text, text, text_eq}
use devit.Tasks.{get, insert}
use devit.Daemon.{Platform, Env, State, Msg, Outcome, Answer, error, silent, reply}
use devit.Daemon.Policy.{str_of}
use devit.Daemon.Details.{trimmed, texts_of}
use devit.Daemon.Store.{OrchestrationStatus, get_notifications, build_snapshot}
use devit.Daemon.Outgoing.{answer_to}

module _ {Value : Type 0} (p : Platform Value) where
  -- A value in json!: null for None
  abbrev pub or_null : Option Value → Value
  or_null none = p.null
  or_null (some v) = v

  abbrev pub string_or_null : Option Text → Value
  string_or_null none = p.null
  string_or_null (some s) = p.string s

  unfoldable pub version_mismatch :
      Env → Msg Value → (expected actual daemon_version : Text) → Msg Value
  version_mismatch env msg expected actual daemon_version = answer_to env (text "ERR") msg (
      p.object (
        (text "code", p.string (text "E_VERSION_MISMATCH"))
        ∷ (
          text "message",
          p.string (
              text "expected worker version '"
              ++ (expected ++ (text "' but client reported '" ++ (actual ++ text "'")))),
        )
        ∷ (text "expected_worker_version", p.string expected)
        ∷ (text "received_worker_version", p.string actual)
        ∷ (text "daemon_version", p.string daemon_version)
        ∷ []))

  unfoldable pub version_missing : Env → Msg Value → (expected daemon_version : Text) → Msg Value
  version_missing env msg expected daemon_version = answer_to env (text "ERR") msg (
      p.object (
        (text "code", p.string (text "E_VERSION_MISSING"))
        ∷ (
          text "message",
          p.string (
              text "expected worker version '"
              ++ (expected ++ text "' but client omitted version field")),
        )
        ∷ (text "expected_worker_version", p.string expected)
        ∷ (text "daemon_version", p.string daemon_version)
        ∷ []))

  abbrev pub client_version : Msg Value → Option Text
  client_version msg = trimmed (str_of p (p.get (text "version") msg.payload))

-- The first message, where there is one.
abbrev pub first : {Value : Type 0} → List (Msg Value) → Answer Value
first [] = silent
first (m ∷ ms) = reply m

module _ {Value Worker : Type 0} where
  abbrev pub answered : Answer Value → State Value Worker → Outcome Value Worker
  answered answer state = record { answer = answer; effects = []; state = state }

module _ {Value Worker : Type 0} (p : Platform Value) where
  unfoldable pub registered : Env → Msg Value → State Value Worker → State Value Worker
  registered env msg state = record state {
    clients =
        insert msg.from
          record {
            ident = msg.from;
            last_heartbeat = env.instant;
            capabilities = texts_of p (p.get (text "caps") msg.payload);
            version = client_version p msg;
          }
          state.clients;
    journal =
        state.journal
        ++ (record {
          ts = env.ts;
          event = text "REGISTER";
          msg_id = msg.msg_id;
          from = msg.from;
          to = text "orchestrator";
          meta = p.object (
              (
                text "capabilities",
                p.array (map p.string (texts_of p (p.get (text "caps") msg.payload))),
              )
              ∷ (text "pid", or_null p (p.get (text "pid") msg.payload))
              ∷ (text "version", string_or_null p (client_version p msg))
              ∷ []);
        }
            ∷ []);
  }

  unfoldable pub accept : Env → Msg Value → State Value Worker → Outcome Value Worker
  accept env msg state =
      answered
        (reply (
          answer_to env (text "ACK") msg (
            p.object (
              (text "daemon_version", p.string state.daemon_version)
              ∷ (text "expected_worker_version", string_or_null p state.expected_worker_version)
              ∷ (text "worker_version", or_null p (p.get (text "version") msg.payload))
              ∷ []))))
        (registered env msg state)

  unfoldable pub handle_register : Env → Msg Value → State Value Worker → Outcome Value Worker
  handle_register env msg state = elim state.expected_worker_version [
    | none ↦ accept env msg state
    | some expected ↦ elim (client_version p msg) [
      | none ↦ answered (reply (version_missing p env msg expected state.daemon_version)) state
      | some actual ↦
          if text_eq actual expected
          then accept env msg state
          else answered (reply (version_mismatch p env msg expected actual state.daemon_version))
              state
    ]
  ]

  -- clients.get_mut(from), and the new time of the heartbeat
  unfoldable pub beat : Env → (from : Text) → State Value Worker → State Value Worker
  beat env from state = elim (get from state.clients) [
    | none ↦ state
    | some client ↦ record state {
      clients = insert from (record client { last_heartbeat = env.instant }) state.clients;
    }
  ]

  unfoldable pub handle_poll : Msg Value → State Value Worker → Outcome Value Worker
  handle_poll msg state =
      answered (first (get_notifications msg.from state).0) (get_notifications msg.from state).1

  unfoldable pub handle_heartbeat : Env → Msg Value → State Value Worker → Outcome Value Worker
  handle_heartbeat env msg state =
      let alive = beat env msg.from state in
      answered (first (get_notifications msg.from alive).0) (get_notifications msg.from alive).1

  -- `to_value` is the serialisation of a status.
  unfoldable pub handle_status_request :
      (to_value : OrchestrationStatus Value → Option Value)
      → Env
      → Msg Value
      → State Value Worker
      → Outcome Value Worker
  handle_status_request to_value env msg state = elim (to_value (build_snapshot state)) [
    | none ↦ answered error state
    | some v ↦ answered (reply (answer_to env (text "STATUS_RESPONSE") msg v)) state
  ]

-- ===== src/Daemon/Queues.antt =====
-- The clients of devitd/src/main.rs: which registrations make a client alive, and what a client gets of the
-- notifications that wait for it.
use devit.Prelude.{
  ◌≡◌, refl, ap, ap₂, ◌∙◌, Bool, true, false, ◌||◌, Option, none, some, List, [], ◌∷◌, ◌++◌, arith,
  Bool-cases, inl, inr, lt→ltb,
}
use devit.Text.{Text, text_eq}
use devit.Tasks.{get, insert, unwrap_or}
use devit.Tasks.Maps.{get-remove, get-insert}
use devit.Daemon.{Platform, Env, State, Msg, Outcome, reply}
use devit.Daemon.Store.{is_client_alive, add_notification, get_notifications}
use devit.Daemon.Clients.{
  client_version, answered, accept, registered, handle_register, handle_poll,
}
use devit.Daemon.Dispatch.{option_all}

-- No version is expected, or the one that the client reports.
abbrev pub is_expected : (expected actual : Option Text) → Bool
is_expected none actual = true
is_expected (some expected) none = false
is_expected (some expected) (some actual) = text_eq actual expected

module _ {Value Worker : Type 0} (p : Platform Value) where
  register_cases :
      (env : Env) (msg : Msg Value) (s : State Value Worker) (P : Outcome Value Worker → Type 0)
      → (is_expected s.expected_worker_version (client_version p msg) ≡ true
          → P (accept p env msg s))
      → ((m : Msg Value)
          → is_expected s.expected_worker_version (client_version p msg) ≡ false
          → P (answered (reply m) s))
      → P (handle_register p env msg s)
  unfolding handle_register
  register_cases env msg s P yes_case no_case =
      let given = client_version p msg in
      option_all P s.expected_worker_version (λ e. yes_case (ap (λ o. is_expected o given) e))
        (λ expected e.
          option_all P given (λ f. no_case _ (ap₂ is_expected e f))
            (λ actual f.
              let both : is_expected s.expected_worker_version given ≡ text_eq actual expected =
                ap₂ is_expected e f in
              elim (Bool-cases (text_eq actual expected)) [
                | inl same ↦ rw same (yes_case (both ∙ same))
                | inr other ↦ rw other (no_case _ (both ∙ other))
              ]))

  accept-alive :
      (env : Env) (msg : Msg Value) (s : State Value Worker)
      → is_client_alive env.instant msg.from (accept p env msg s).state ≡ true
  unfolding is_client_alive accept registered
  accept-alive env msg s =
      rw (get-insert msg.from _ s.clients, is_client_alive, accept, registered)
        (lt→ltb _ _ (omega arith))

  -- Behind a registration the sender is alive exactly where it was so before, or where no version is
  -- expected or the expected one is reported.
  pub handle_register-alive :
      (env : Env) (msg : Msg Value) (s : State Value Worker)
      → is_client_alive env.instant msg.from (handle_register p env msg s).state ≡ (
          is_expected s.expected_worker_version (client_version p msg)
          || is_client_alive env.instant msg.from s)
  handle_register-alive env msg s =
      register_cases env msg s
        (λ o. is_client_alive env.instant msg.from o.state ≡ (
          is_expected s.expected_worker_version (client_version p msg)
          || is_client_alive env.instant msg.from s))
        (λ e. rw e (accept-alive env msg s)) (λ m e. rw e refl)

  -- Where several notifications wait for a client, a POLL is answered with the first of them, and behind it
  -- none is left: the others, the one that came last among them, are never handed over.
  pub handle_poll-first :
      (msg m first : Msg Value) (rest : List (Msg Value)) (s : State Value Worker)
      → get msg.from s.pending_notifications ≡ some (first ∷ rest)
      → let polled = handle_poll p msg (add_notification msg.from m s) in
        (polled.answer ≡ reply first) × (get_notifications msg.from polled.state).0 ≡ []
  unfolding handle_poll add_notification get_notifications
  handle_poll-first msg m first rest s waiting =
      let queue = unwrap_or [] (get msg.from s.pending_notifications) ++ (m ∷ []) in
      let told = insert msg.from queue s.pending_notifications in
      (
        rw (get-insert msg.from queue s.pending_notifications) (rw waiting refl),
        ap (unwrap_or []) (get-remove msg.from told),
      )

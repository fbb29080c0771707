-- ===== src/Daemon/Acks.antt =====
-- The acknowledgement of a notification in devitd/src/main.rs, the Unix build: the writer of the waiting
-- hook, or the file that it looks for.
use devit.Prelude.{Option, none, some, List, [], ◌∷◌, ◌++◌, if◌then◌else◌}
use devit.Text.{Text}
use devit.Paths.{PathBuf}
use devit.Tasks.{get, remove}
use devit.Daemon.{Env, State, Effect, Outcome, silent, remove_file, write_marker}

module _ {Value Worker : Type 0} where
  -- A file that is removed, where there is one.
  abbrev pub remove_effect : Option PathBuf → List (Effect Value Worker)
  remove_effect none = []
  remove_effect (some path) = remove_file path ∷ []

  abbrev pub write_effect : Option PathBuf → List (Effect Value Worker)
  write_effect none = []
  write_effect (some path) = write_marker path ∷ []

  abbrev pub done : List (Effect Value Worker) → State Value Worker → Outcome Value Worker
  done effects state = record { answer = silent; effects = effects; state = state }

  -- The socket's writer is gone or does not take the byte: the marker releases the hook.
  unfoldable pub by_marker : Text → Option PathBuf → State Value Worker → Outcome Value Worker
  by_marker task_id marker state =
      done (write_effect marker ++ remove_effect (get task_id state.ack_sockets))
        (record state { ack_sockets = remove task_id state.ack_sockets })

  unfoldable pub handle_ack : Env → Text → State Value Worker → Outcome Value Worker
  handle_ack env task_id state =
      let marker = get task_id state.ack_markers in
      let taken : State Value Worker = record state {
        ack_markers = remove task_id state.ack_markers;
        ack_writers = remove task_id state.ack_writers;
      } in
      elim (get task_id state.ack_writers) [
        | none ↦ by_marker task_id marker taken
        | some writer ↦
            if env.socket_written
            then done (remove_effect (get task_id state.ack_sockets) ++ remove_effect marker)
                (record taken { ack_sockets = remove task_id state.ack_sockets })
            else by_marker task_id marker taken
      ]

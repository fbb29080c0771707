-- ===== src/Daemon/Hooks.antt =====
-- What run_notify_hook in devitd/src/main.rs changes in the state before it starts the command of a hook,
-- the Unix build: the places where the hook waits for an acknowledgement.
use devit.Prelude.{ℕ, Bool, ◌∷◌, ◌++◌, if◌then◌else◌}
use devit.Text.{Text, text}
use devit.Paths.{PathBuf, join}
use devit.Tasks.{insert}
use devit.Daemon.{State}

-- `pid` is the daemon's process id in decimal digits.
unfoldable pub ack_path : (temp_dir : PathBuf) (pid task_id : Text) → PathBuf
ack_path temp_dir pid task_id =
    join (join temp_dir (text "devit-notify")) (text "ack-" ++ (task_id ++ (b'-' ∷ pid)))

unfoldable pub socket_path : (temp_dir : PathBuf) (pid task_id : Text) → PathBuf
socket_path temp_dir pid task_id =
    join (join temp_dir (text "devit-notify"))
      (text "acksock-" ++ (task_id ++ (b'-' ∷ (pid ++ text ".sock"))))

module _ {Value Worker : Type 0} where
  -- `bound` tells whether the socket could be bound.
  unfoldable pub prepare_ack :
      (temp_dir : PathBuf) (pid task_id : Text) (bound : Bool)
      → State Value Worker
      → State Value Worker
  prepare_ack temp_dir pid task_id bound state =
      let marked : State Value Worker = record state {
        ack_markers = insert task_id (ack_path temp_dir pid task_id) state.ack_markers;
      } in
      if bound
      then record marked {
        ack_sockets = insert task_id (socket_path temp_dir pid task_id) state.ack_sockets;
      }
      else marked

  -- The hook has connected.
  unfoldable pub accept_ack :
      (task_id : Text) (writer : ℕ) → State Value Worker → State Value Worker
  accept_ack task_id writer state = record state {
    ack_writers = insert task_id writer state.ack_writers;
  }

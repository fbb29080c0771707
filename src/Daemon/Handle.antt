-- ===== src/Daemon/Handle.antt =====
-- The dispatch of devitd/src/main.rs, handle_message, with the screenshots and the end of a worker's run.
use devit.Prelude.{ℕ, Option, none, some, [], ◌∷◌, inl, inr, ◌⊎◌, if◌then◌else◌}
use devit.Text.{Text, text, text_eq}
use devit.Paths.{PathBuf}
use devit.Tasks.{unwrap_or}
use devit.Daemon.{Platform, Env, State, Msg, Outcome, error, silent, reply}
use devit.Daemon.Signing.{verify_hmac_detailed}
use devit.Daemon.Store.{OrchestrationStatus}
use devit.Daemon.Screenshot.{ScreenshotJob, prepare_job}
use devit.Daemon.Outgoing.{answer_to, build_error_response}
use devit.Daemon.Clients.{
  answered, handle_register, handle_heartbeat, handle_poll, handle_status_request,
}
use devit.Daemon.Delegate.{handle_delegate}
use devit.Daemon.Notify.{handle_notify}
use devit.Daemon.Approvals.{handle_approval_decision}

-- What stands outside of the handlers: the directory for temporary files, the serialisation of a status,
-- the result of a screenshot with its size, or the error, and path.strip_prefix(root) with its display.
pub record Outside (Value : Type 0) : Type 0 where
  pub temp_dir : PathBuf
  pub to_value : OrchestrationStatus Value → Option Value
  pub execute : ScreenshotJob → Text ⊎ ℕ
  pub human_readable_size : ℕ → Text
  pub strip_prefix : (root path : PathBuf) → Option Text

module _ {Value Worker : Type 0} (p : Platform Value) (outside : Outside Value) where
  unfoldable pub shown_path : State Value Worker → PathBuf → Text
  shown_path state path = elim state.workspace_root [
    | none ↦ path
    | some root ↦ unwrap_or path (outside.strip_prefix root path)
  ]

  unfoldable pub handle_screenshot : Env → Msg Value → State Value Worker → Outcome Value Worker
  handle_screenshot env msg state =
      let (result, screenshot) = prepare_job p outside.temp_dir env state.screenshot in
      elim result [
        | inl message ↦
            answered (reply (build_error_response p env msg (text "E_SCREENSHOT_DENIED") message))
              (record state { screenshot = screenshot })
        | inr job ↦
            answered
              (reply (elim (outside.execute job) [
                | inl message ↦ build_error_response p env msg (text "E_SCREENSHOT_FAILED") message
                | inr bytes ↦ answer_to env (text "ACK") msg (
                    p.object (
                      (text "status", p.string (text "ok"))
                      ∷ (text "path", p.string (shown_path state job.path))
                      ∷ (text "format", p.string job.format)
                      ∷ (
                        text "size",
                        p.object (
                            (text "bytes", p.number bytes)
                            ∷ (text "human", p.string (outside.human_readable_size bytes))
                            ∷ []),
                      )
                      ∷ []))
              ]))
              (record state { screenshot = screenshot })
      ]

  -- The messages that pass the check.
  unfoldable pub dispatch : Env → Msg Value → State Value Worker → Outcome Value Worker
  dispatch env msg state =
      if text_eq msg.msg_type (text "REGISTER")
      then handle_register p env msg state
      else if text_eq msg.msg_type (text "HEARTBEAT")
      then handle_heartbeat p env msg state
      else if text_eq msg.msg_type (text "DELEGATE")
      then handle_delegate p env msg state
      else if text_eq msg.msg_type (text "NOTIFY")
      then handle_notify p env msg state
      else if text_eq msg.msg_type (text "APPROVAL_DECISION")
      then handle_approval_decision p env msg state
      else if text_eq msg.msg_type (text "POLL")
      then handle_poll p msg state
      else if text_eq msg.msg_type (text "STATUS_REQUEST")
      then handle_status_request p outside.to_value env msg state
      else if text_eq msg.msg_type (text "SCREENSHOT")
      then handle_screenshot env msg state
      else answered silent state

  unfoldable pub handle_message : Env → Msg Value → State Value Worker → Outcome Value Worker
  handle_message env msg state = elim (verify_hmac_detailed p msg state.secret) [
    | none ↦ answered error state
    | some check ↦ if check.valid then dispatch env msg state else answered silent state
  ]

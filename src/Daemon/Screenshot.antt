-- ===== src/Daemon/Screenshot.antt =====
-- The permission to take a screenshot, ScreenshotControl in devitd/src/main.rs. Instants are counted in
-- nanoseconds; the result of a refusal is its message.
use Prim.Native.Nat.{max}
use devit.Prelude.{
  ℕ, ◌*◌, ◌-◌, ◌%◌, ◌^◌, Bool, not, ◌&&◌, ◌||◌, none, some, List, [], ◌∷◌, ◌++◌, ltb, leb, ◌==◌,
  length, if◌then◌else◌, ◌⊎◌, inl, inr,
}
use devit.Text.{Text, text}
use devit.Paths.{PathBuf, starts_with, join}
use devit.Tasks.{second}
use devit.Daemon.{Platform, Env, ScreenshotBackend, ScreenshotControl}

pub record ScreenshotJob : Type 0 where
  pub path : PathBuf
  pub backend : ScreenshotBackend
  pub format : Text

-- self.history.pop_front() while the front is older than the window; `now.duration_since(front)` stops
-- at 0.
unfoldable pub drop_old : (now window : ℕ) → List ℕ → List ℕ
drop_old now window [] = []
drop_old now window (front ∷ history) =
    let rest = drop_old now window history in
    if ltb window (now - front) then rest else front ∷ history

unfoldable pub prune : (now : ℕ) → ScreenshotControl → ScreenshotControl
prune now self =
    if self.rate_limit.max_actions == 0 || self.rate_limit.per_seconds == 0
    then record self { history = [] }
    else record self {
      history = drop_old now (max 1 self.rate_limit.per_seconds * second) self.history;
    }

-- `temp_dir` is std::env::temp_dir().
abbrev pub fallback_screenshot_directory : (temp_dir : PathBuf) → PathBuf
fallback_screenshot_directory temp_dir = join temp_dir (text "devit-screenshots")

unfoldable pub is_allowed : (temp_dir : PathBuf) → PathBuf → ScreenshotControl → Bool
is_allowed temp_dir path self = elim self.workspace_root [
  | none ↦ starts_with path (fallback_screenshot_directory temp_dir)
  | some root ↦ starts_with path root || starts_with path (fallback_screenshot_directory temp_dir)
]

module _ {Value : Type 0} (p : Platform Value) where
  unfoldable pub candidate_path : (utc : ℕ) → ScreenshotControl → PathBuf
  candidate_path utc self =
      join self.output_dir (text "screenshot-" ++ (p.file_time utc ++ (b'.' ∷ self.format)))

  unfoldable pub limit_message : ScreenshotControl → Text
  limit_message self =
      text "Screenshot rate limit exceeded (max "
      ++ (p.show self.rate_limit.max_actions
          ++ (text " per " ++ (p.show (max 1 self.rate_limit.per_seconds) ++ text "s)")))

module _ {Value : Type 0} (p : Platform Value) (temp_dir : PathBuf) where
  -- The length of the history is compared as a u32.
  unfoldable pub prepare_job : Env → ScreenshotControl → (Text ⊎ ScreenshotJob) × ScreenshotControl
  prepare_job env self =
      let pruned = prune env.instant self in
      let path = candidate_path p env.utc self in
      if not self.enabled
      then (inl (text "Screenshot capability is disabled by configuration"), self)
      else if ltb 0 self.rate_limit.max_actions
          && leb self.rate_limit.max_actions (length pruned.history % 2 ^ 32)
      then (inl (limit_message p self), pruned)
      else elim env.directory_error [
        | some message ↦ (inl message, pruned)
        | none ↦
            if not (is_allowed temp_dir path self)
            then (
              inl (text "Screenshot path " ++ (path ++ text " is outside of the allowed sandbox")),
              pruned,
            )
            else (
              inr (record { path = path; backend = self.backend; format = self.format }),
              record pruned { history = pruned.history ++ (env.instant ∷ []) },
            )
      ]

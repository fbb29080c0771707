-- ===== src/Daemon/Shots.antt =====
-- The rate limit of the screenshots in devitd/src/main.rs, over any requests at times that do not decrease.
use Prim.Native.Nat.{max}
use devit.Prelude.{
  ℕ, suc, ◌+◌, ◌-◌, ◌*◌, ◌%◌, ◌^◌, ◌≤◌, ◌<◌, ◌≡◌, refl, false, not, ◌&&◌, ◌||◌, ◌==◌, List, [], ◌∷◌,
  ◌++◌, ltb, leb, length, length-append, append-nil, if◌then◌else◌, ◌⊎◌, inl, inr, arith,
  Bool-cases,
}
use devit.Text.{Text}
use devit.Paths.{PathBuf}
use devit.Tasks.{second}
use devit.Daemon.{Platform, Env, ScreenshotControl}
use devit.Daemon.Screenshot.{
  ScreenshotJob, drop_old, prune, is_allowed, candidate_path, prepare_job,
}
use devit.Daemon.Dispatch.{if_all, option_all}

-- How many of the times are at most a window before `now`.
unfoldable pub count_recent : (window now : ℕ) → List ℕ → ℕ
count_recent window now [] = 0
count_recent window now (t ∷ ts) =
    if leb (now - t) window then suc (count_recent window now ts) else count_recent window now ts

count_recent-append :
    (window now : ℕ) (xs ys : List ℕ)
    → count_recent window now (xs ++ ys) ≡ count_recent window now xs + count_recent window now ys
unfolding count_recent
count_recent-append window now [] ys = omega arith
count_recent-append window now (x ∷ xs) ys = ground (arith, count_recent-append window now xs ys)

count_recent-le-length : (window now : ℕ) (xs : List ℕ) → count_recent window now xs ≤ length xs
unfolding count_recent
count_recent-le-length window now [] = omega arith
count_recent-le-length window now (x ∷ xs) = ground (arith, count_recent-le-length window now xs)

-- What was dropped at a time is no longer recent then, nor later.
count_recent-drop_old :
    (window t now : ℕ) (xs : List ℕ)
    → t ≤ now
    → count_recent window now (drop_old t window xs) ≡ count_recent window now xs
unfolding count_recent drop_old
count_recent-drop_old window t now [] h = refl
count_recent-drop_old window t now (x ∷ xs) h =
    ground (arith, count_recent-drop_old window t now xs h)

length-drop_old : (window t : ℕ) (xs : List ℕ) → length (drop_old t window xs) ≤ length xs
unfolding drop_old
length-drop_old window t [] = omega arith
length-drop_old window t (x ∷ xs) = ground (arith, length-drop_old window t xs)

-- The time of a request that is granted.
abbrev pub granted_at : ℕ → Text ⊎ ScreenshotJob → List ℕ
granted_at now (inl message) = []
granted_at now (inr job) = now ∷ []

module _ {Value : Type 0} (p : Platform Value) (temp_dir : PathBuf) where
  -- The requests to a control so far: the time of the last one, the times of those that were granted,
  -- and the control behind them.
  pub data Shots (first : ScreenshotControl) : ℕ → List ℕ → ScreenshotControl → Type 0 where
    untouched : Shots first 0 [] first
    requested :
        {t : ℕ} {log : List ℕ} {c : ScreenshotControl} (env : Env)
        → t ≤ env.instant
        → Shots first t log c
        → Shots first env.instant
            (log ++ granted_at env.instant (prepare_job p temp_dir env c).0)
            (prepare_job p temp_dir env c).1

module _ (m n : ℕ) where
  -- The limit is the given one, the history is no longer than it, and holds all recent shots.
  abbrev IsLimited : ℕ → List ℕ → ScreenshotControl → Type 0
  IsLimited t log c =
      (c.rate_limit.max_actions ≡ m)
      × (c.rate_limit.per_seconds ≡ n)
      × (length c.history ≤ m)
      × ((now : ℕ)
          → t ≤ now
          → count_recent (n * second) now log ≤ count_recent (n * second) now c.history)

  prune-IsLimited :
      (t now : ℕ) (log : List ℕ) (c : ScreenshotControl)
      → 0 < m
      → 0 < n
      → t ≤ now
      → IsLimited t log c
      → IsLimited now log (prune now c)
  unfolding prune
  prune-IsLimited t now log c some_actions some_seconds later (em, en, few, covers) =
      let both : (c.rate_limit.max_actions == 0 || c.rate_limit.per_seconds == 0) ≡ false =
        ground (arith, em, en, some_actions, some_seconds) in
      let seconds : max 1 c.rate_limit.per_seconds ≡ n = omega (arith, en, some_seconds) in
      rw (both, prune)
        (rw seconds (
          em,
          en,
          omega (arith, few, length-drop_old (n * second) now c.history),
          λ time h. omega (
            arith,
            covers time (omega (arith, later, h)),
            count_recent-drop_old (n * second) now time c.history h,
          ),
        ))

  grant-IsLimited :
      (t : ℕ) (log : List ℕ) (c : ScreenshotControl)
      → suc (length c.history) ≤ m
      → IsLimited t log c
      → IsLimited t (log ++ (t ∷ [])) (record c { history = c.history ++ (t ∷ []) })
  grant-IsLimited t log c room (em, en, few, covers) = (
    em,
    en,
    rw (length-append c.history (t ∷ [])) (omega (arith, room)),
    λ time h.
        rw
          (
            count_recent-append (n * second) time log (t ∷ []),
            count_recent-append (n * second) time c.history (t ∷ []),
          )
          (omega (arith, covers time h)),
  )

  module _ {Value : Type 0} (p : Platform Value) (temp_dir : PathBuf) where
    prepare_job-IsLimited :
        (t : ℕ) (log : List ℕ) (c : ScreenshotControl) (env : Env)
        → 0 < m
        → m < 2 ^ 32
        → 0 < n
        → t ≤ env.instant
        → IsLimited t log c
        → IsLimited env.instant
            (log ++ granted_at env.instant (prepare_job p temp_dir env c).0)
            (prepare_job p temp_dir env c).1
    unfolding prepare_job
    prepare_job-IsLimited t log c env some_actions small some_seconds later (em, en, few, covers) =
        let I = IsLimited env.instant log in
        let P = λ (r : (Text ⊎ ScreenshotJob) × ScreenshotControl).
          IsLimited env.instant (log ++ granted_at env.instant r.0) r.1 in
        let unchanged : IsLimited env.instant (log ++ []) c =
          rw (append-nil log) (em, en, few, λ time h. covers time (omega (arith, later, h))) in
        let pruned_ok =
          prune-IsLimited t env.instant log c some_actions some_seconds later
            (em, en, few, covers) in
        let pruned = prune env.instant c in
        let refused : IsLimited env.instant (log ++ []) pruned = rw (append-nil log) pruned_ok in
        let full =
          ltb 0 c.rate_limit.max_actions
          && leb c.rate_limit.max_actions (length pruned.history % 2 ^ 32) in
        if_all P (not c.enabled) (λ e. unchanged)
          (elim (Bool-cases full) [
            | inl over ↦ rw over refused
            | inr room ↦ rw room (
                option_all P env.directory_error
                  (λ e.
                    if_all P (not (is_allowed temp_dir (candidate_path p env.utc c) c))
                      (λ e. refused)
                      (grant-IsLimited env.instant log pruned
                        (ground (arith, em, some_actions, small, pruned_ok, room)) pruned_ok))
                  (λ message e. refused))
          ])

    Shots-IsLimited :
        (first : ScreenshotControl) (t : ℕ) (log : List ℕ) (c : ScreenshotControl)
        → 0 < m
        → m < 2 ^ 32
        → 0 < n
        → IsLimited 0 [] first
        → Shots p temp_dir first t log c
        → IsLimited t log c
    Shots-IsLimited first _ _ _ some_actions small some_seconds h untouched = h
    Shots-IsLimited first _ _ _ some_actions small some_seconds h
          (requested {t} {log} {c} env later r) =
        prepare_job-IsLimited t log c env some_actions small some_seconds later
          (Shots-IsLimited first t log c some_actions small some_seconds h r)

module _ {Value : Type 0} (p : Platform Value) (temp_dir : PathBuf) where
  -- Whatever is requested of a control without history, at times that do not decrease: at any time from
  -- the last request on at most max_actions of the granted requests lie within the last per_seconds
  -- seconds, given that max_actions is not 0 and fits in 32 bits and that per_seconds is not 0.
  pub Shots-limit :
      (first : ScreenshotControl) (t : ℕ) (log : List ℕ) (c : ScreenshotControl) (now : ℕ)
      → first.history ≡ []
      → 0 < first.rate_limit.max_actions
      → first.rate_limit.max_actions < 2 ^ 32
      → 0 < first.rate_limit.per_seconds
      → Shots p temp_dir first t log c
      → t ≤ now
      → count_recent (first.rate_limit.per_seconds * second) now log ≤ first.rate_limit.max_actions
  unfolding count_recent
  Shots-limit first t log c now fresh some_actions small some_seconds shots later =
      let m = first.rate_limit.max_actions in
      let n = first.rate_limit.per_seconds in
      let (em, en, few, covers) =
        Shots-IsLimited m n p temp_dir first t log c some_actions small some_seconds
          (refl, refl, rw fresh (omega arith), λ time h. omega arith) shots in
      omega (arith, covers now later, few, count_recent-le-length (n * second) now c.history)

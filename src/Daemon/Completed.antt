-- ===== src/Daemon/Completed.antt =====
-- How many completed tasks the daemon keeps, prune_completed and finalize_task in devitd/src/main.rs.
use devit.Prelude.{
  ℕ, zero, suc, ◌-◌, ◌≤◌, ◌≡◌, refl, ap, ◌∙◌, sym, subst, Bool, true, not, ◌&&◌, List, [], ◌∷◌, leb,
  length, all, arith, Bool-cases, Option-cases, inl, inr, &&-eq-true,
}
use devit.Text.{Text, text_eq, text_eq_iff, text_eq_refl}
use devit.Tasks.{DelegatedTask, get, remove, is_finished}
use devit.Tasks.Maps.{length-remove_found}
use devit.Daemon.{State, max_completed_tasks}
use devit.Daemon.Store.{insert_by_key, sort_by_key, remove_first, ages, prune_completed}
use devit.Tasks.Keys.{has, is_some, all_pairs-remove}

length-insert_by_key :
    (t : Text × ℕ) (ts : List (Text × ℕ)) → length (insert_by_key t ts) ≡ suc (length ts)
unfolding insert_by_key
length-insert_by_key t [] = refl
length-insert_by_key (id, ts) ((id', ts') ∷ rest) =
    ground (arith, length-insert_by_key (id, ts) rest)

length-sort_by_key : (ts : List (Text × ℕ)) → length (sort_by_key ts) ≡ length ts
unfolding sort_by_key
length-sort_by_key [] = refl
length-sort_by_key (t ∷ ts) =
    length-insert_by_key t (sort_by_key ts) ∙ ap suc (length-sort_by_key ts)

module _ (p : Text × ℕ → Bool) where
  all-insert_by_key :
      (t : Text × ℕ) (ts : List (Text × ℕ))
      → p t ≡ true
      → all p ts ≡ true
      → all p (insert_by_key t ts) ≡ true
  unfolding insert_by_key
  all-insert_by_key t [] e h = rw e refl
  all-insert_by_key (id, ts) ((id', ts') ∷ rest) e h =
      let (q, others) = &&-eq-true (p (id', ts')) (all p rest) h in
      elim (Bool-cases (leb ts ts')) [
        | inl before ↦ rw (before, insert_by_key) (rw e h)
        | inr behind ↦ rw (behind, insert_by_key) (rw q (all-insert_by_key (id, ts) rest e others))
      ]

  all-sort_by_key : (ts : List (Text × ℕ)) → all p ts ≡ true → all p (sort_by_key ts) ≡ true
  unfolding sort_by_key
  all-sort_by_key [] h = refl
  all-sort_by_key (t ∷ ts) h =
      let (e, rest) = &&-eq-true (p t) (all p ts) h in
      all-insert_by_key t (sort_by_key ts) e (all-sort_by_key ts rest)

module _ {Value : Type 0} where
  -- A task stands under its own id and has a final status, or has none.
  abbrev pub is_closed : Text × DelegatedTask Value → Bool
  is_closed (k, task) = text_eq task.id k && is_finished task.status

  abbrev pub is_open : Text × DelegatedTask Value → Bool
  is_open (k, task) = text_eq task.id k && not (is_finished task.status)

  length-ages : (l : List (Text × DelegatedTask Value)) → length (ages l) ≡ length l
  length-ages [] = refl
  length-ages (t ∷ l) = ap suc (length-ages l)

  ages-has :
      (l m : List (Text × DelegatedTask Value))
      → ((k : Text) → has k l ≡ true → has k m ≡ true)
      → all is_closed l ≡ true
      → all (λ (id, ts). has id m) (ages l) ≡ true
  unfolding get
  ages-has [] m sub h = refl
  ages-has ((k, task) ∷ l) m sub h =
      let (closed, rest) = &&-eq-true (is_closed (k, task)) (all is_closed l) h in
      let same = (text_eq_iff task.id k).0 (&&-eq-true _ _ closed).0 in
      rw (subst (λ i. has i m ≡ true) (sym same) (sub k (rw (text_eq_refl k) refl))) (
        ages-has l m
          (λ j there.
            sub j (elim (Bool-cases (text_eq k j)) [
              | inl hit ↦ rw hit refl
              | inr miss ↦ rw miss there
            ]))
          rest)

  all-remove_first :
      (p : Text × DelegatedTask Value → Bool) (n : ℕ) (ids : List (Text × ℕ))
      (m : List (Text × DelegatedTask Value))
      → all p m ≡ true
      → all p (remove_first n ids m) ≡ true
  unfolding remove_first
  all-remove_first p zero ids m h = h
  all-remove_first p (suc n) [] m h = h
  all-remove_first p (suc n) ((id, ts) ∷ ids) m h =
      all-remove_first p n ids (remove id m) (all_pairs-remove p id m h)

  -- One task too many is one task that is found and removed.
  length-remove_first :
      (ids : List (Text × ℕ)) (m : List (Text × DelegatedTask Value))
      → all (λ (id, ts). has id m) ids ≡ true
      → length ids ≡ length m
      → length m ≡ suc max_completed_tasks
      → length (remove_first 1 ids m) ≤ max_completed_tasks
  unfolding remove_first
  length-remove_first [] m found same full = omega arith
  length-remove_first ((id, ts) ∷ ids) m found same full =
      let present = (&&-eq-true (has id m) (all (λ (j, t). has j m) ids) found).0 in
      elim (Option-cases (get id m)) [
        | inl gone ↦ cc (ap is_some gone, present)
        | inr (task, there) ↦ omega (arith, length-remove_found id m task there, full)
      ]

module _ {Value Worker : Type 0} where
  exact_bound :
      (state : State Value Worker)
      → all is_closed state.tasks_completed ≡ true
      → length state.tasks_completed ≡ suc max_completed_tasks
      → length (
          remove_first
            (length state.tasks_completed - max_completed_tasks)
            (sort_by_key (ages state.tasks_completed))
            state.tasks_completed)
        ≤ max_completed_tasks
  exact_bound state closed full =
      let tasks = state.tasks_completed in
      let one : length tasks - max_completed_tasks ≡ 1 = omega (arith, full) in
      rw one (
        length-remove_first (sort_by_key (ages tasks)) tasks
          (all-sort_by_key (λ (id, ts). has id tasks) (ages tasks)
            (ages-has tasks tasks (λ k h. h) closed))
          (length-sort_by_key (ages tasks) ∙ length-ages tasks) full)

  pub prune_completed-bounded :
      (state : State Value Worker)
      → all is_closed state.tasks_completed ≡ true
      → length state.tasks_completed ≤ suc max_completed_tasks
      → (all is_closed (prune_completed state).tasks_completed ≡ true)
        × (length (prune_completed state).tasks_completed ≤ max_completed_tasks)
  unfolding prune_completed
  prune_completed-bounded state closed few =
      let tasks = state.tasks_completed in
      let queue = sort_by_key (ages tasks) in
      elim (Bool-cases (leb (length tasks) max_completed_tasks)) [
        | inl fits ↦ rw (fits, prune_completed) (closed, ground (arith, fits))
        | inr over ↦
            rw (over, prune_completed)
              (
                all-remove_first is_closed (length tasks - max_completed_tasks) queue tasks closed,
                exact_bound state closed (ground (arith, few, over)),
              )
      ]

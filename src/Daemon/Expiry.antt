-- ===== src/Daemon/Expiry.antt =====
-- What the clean-up of devitd/src/main.rs does with a lease that has run out.
use devit.Prelude.{
  ℕ, suc, ◌<◌, ◌≡◌, refl, ◌∙◌, sym, subst, Bool, true, false, Option, none, some, some_inj, List,
  [], ◌∷◌, any, Bool-cases, inl, inr, lt→ltb,
}
use devit.Text.{Text, text_eq, text_eq_iff}
use devit.Tasks.{DelegatedTask, get, remove, insert, is_finished}
use devit.Tasks.Maps.{get-remove, get-insert}
use devit.Daemon.{Platform, Env, State, Lease, Effect}
use devit.Daemon.Store.{finalize_task}
use devit.Daemon.Timeout.{timed_out}
use devit.Daemon.Cleanup.{
  take_task, expire, expire_lease, expire_leases, keys_where, is_overdue, remove_clients,
  cleanup_expired,
}
use devit.Tasks.Keys.{get-remove_other}
use devit.Daemon.Frames.{
  Framed, Framed-trans, take_task-Framed, finalize_task-Framed, notify_signed-Framed,
  journal-Framed,
}
use devit.Daemon.Dispatch.{if_all, option_all}

keys_where-any :
    {A : Type 0} (test : A → Bool) (k : Text) (m : List (Text × A)) (a : A)
    → get k m ≡ some a
    → test a ≡ true
    → any (λ j. text_eq j k) (keys_where test m) ≡ true
unfolding keys_where get
keys_where-any test k [] a found passes = cc
keys_where-any test k ((j, b) ∷ m) a found passes = elim (Bool-cases (text_eq j k)) [
  | inl same ↦
      rw (subst (λ c. test c ≡ true) (sym (some_inj (rw (same, get) at found))) passes, keys_where)
        (rw same refl)
  | inr other ↦
      let later = keys_where-any test k m a (rw (other, get) at found) passes in
      if_all (λ ids. any (λ i. text_eq i k) ids ≡ true) (test b) (λ e. rw other later) later
]

module _ {A : Type 0} where
  get-insert_other :
      (j k : Text) (a : A) (m : List (Text × A))
      → text_eq k j ≡ false
      → get j (insert k a m) ≡ get j m
  unfolding insert get
  get-insert_other j k a m other = rw other (get-remove_other j k m other)

module _ {Value Worker : Type 0} where
  -- The lease is kept apart for a late report, and neither it nor a task under it is active.
  abbrev pub IsEnded : Text → Lease → State Value Worker → Type 0
  IsEnded k lease s =
      (get k s.leases ≡ none)
      × (get k s.tasks_active ≡ none)
      × (get k s.expired_leases ≡ some lease)

  abbrev ended : Text → Lease → State Value Worker → State Value Worker
  ended task_id lease s = record s {
    expired_leases = insert task_id lease s.expired_leases;
    tasks_active = remove task_id s.tasks_active;
  }

module _ {Value : Type 0} (p : Platform Value) where
  timed_out_finished :
      (utc : ℕ) (task_id : Text) (lease : Lease) (task : Option (DelegatedTask Value))
      → is_finished (timed_out p utc task_id lease task).status ≡ true
  unfolding timed_out
  timed_out_finished utc task_id lease none = refl
  timed_out_finished utc task_id lease (some task) = refl

module _ {Value Worker : Type 0} (p : Platform Value) where
  expire-Framed :
      (env : Env) (task_id : Text) (lease : Lease) (s : State Value Worker)
      → Framed (ended task_id lease s) (expire p env task_id lease s)
  unfolding expire
  expire-Framed env task_id lease s =
      let kept = record s { expired_leases = insert task_id lease s.expired_leases } in
      let taken = take_task task_id kept in
      let task = timed_out p env.utc task_id lease taken.0 in
      Framed-trans (ended task_id lease s) taken.1 (expire p env task_id lease s)
        (take_task-Framed task_id kept)
        (Framed-trans taken.1 (finalize_task task taken.1) (expire p env task_id lease s)
          (finalize_task-Framed task taken.1 (timed_out_finished p env.utc task_id lease taken.0))
          (journal-Framed (finalize_task task taken.1) _ _
            (notify_signed-Framed p _ _ (finalize_task task taken.1))))

  -- A turn of the loop ends the lease of its own task.
  expire_lease-IsEnded :
      (env : Env) (k : Text) (lease : Lease) (s : State Value Worker)
      → get k s.leases ≡ some lease
      → IsEnded k lease (expire_lease p env k s).1
  unfolding expire_lease
  expire_lease-IsEnded env k lease s found =
      let removed = record s { leases = remove k s.leases } in
      rw (found, expire_lease)
        (subst (IsEnded k lease) (sym (expire-Framed env k lease removed))
          (get-remove k s.leases, get-remove k s.tasks_active, get-insert k lease s.expired_leases))

  -- What a turn for another task leaves as it is.
  abbrev Same : Text → State Value Worker → State Value Worker → Type 0
  Same k s t =
      (get k t.leases ≡ get k s.leases)
      × (get k t.tasks_active ≡ get k s.tasks_active)
      × (get k t.expired_leases ≡ get k s.expired_leases)

  expire_lease-Same :
      (env : Env) (k j : Text) (s : State Value Worker)
      → text_eq j k ≡ false
      → Same k s (expire_lease p env j s).1
  unfolding expire_lease
  expire_lease-Same env k j s other =
      option_all (λ (r : List (Effect Value Worker) × State Value Worker). Same k s r.1)
        (get j s.leases) (λ e. (refl, refl, refl))
        (λ lease e.
          let removed = record s { leases = remove j s.leases } in
          subst (Same k s) (sym (expire-Framed env j lease removed)) (
            get-remove_other k j s.leases other,
            get-remove_other k j s.tasks_active other,
            get-insert_other k j lease s.expired_leases other,
          ))

  -- A lease that has ended stays so.
  expire_lease-kept :
      (env : Env) (k j : Text) (lease : Lease) (s : State Value Worker)
      → IsEnded k lease s
      → IsEnded k lease (expire_lease p env j s).1
  unfolding expire_lease
  expire_lease-kept env k j lease s (unleased, inactive, kept) = elim (Bool-cases (text_eq j k)) [
    | inl same ↦
        rw
          (
            subst (λ i. get i s.leases ≡ none) (sym ((text_eq_iff j k).0 same)) unleased,
            expire_lease,
          )
          (unleased, inactive, kept)
    | inr other ↦
        let (l, a, e) = expire_lease-Same env k j s other in (l ∙ unleased, a ∙ inactive, e ∙ kept)
  ]

  expire_leases-kept :
      (envs : ℕ → Env) (k : Text) (lease : Lease) (ids : List Text) (s : State Value Worker)
      → IsEnded k lease s
      → IsEnded k lease (expire_leases p envs ids s).1
  unfolding expire_leases
  expire_leases-kept envs k lease [] s h = h
  expire_leases-kept envs k lease (j ∷ ids) s h =
      expire_leases-kept (λ n. envs (suc n)) k lease ids _
        (expire_lease-kept (envs 0) k j lease s h)

  expire_leases-IsEnded :
      (envs : ℕ → Env) (k : Text) (lease : Lease) (ids : List Text) (s : State Value Worker)
      → any (λ j. text_eq j k) ids ≡ true
      → get k s.leases ≡ some lease
      → IsEnded k lease (expire_leases p envs ids s).1
  unfolding expire_leases
  expire_leases-IsEnded envs k lease [] s there found = cc
  expire_leases-IsEnded envs k lease (j ∷ ids) s there found =
      let turn = expire_lease p (envs 0) j s in
      elim (Bool-cases (text_eq j k)) [
        | inl same ↦
            expire_leases-kept (λ n. envs (suc n)) k lease ids turn.1
              (subst (λ i. IsEnded k lease (expire_lease p (envs 0) i s).1)
                (sym ((text_eq_iff j k).0 same)) (expire_lease-IsEnded (envs 0) k lease s found))
        | inr other ↦
            expire_leases-IsEnded (λ n. envs (suc n)) k lease ids turn.1 (rw other at there)
              ((expire_lease-Same (envs 0) k j s other).0 ∙ found)
      ]

  remove_clients-IsEnded :
      (ids : List Text) (k : Text) (lease : Lease) (s : State Value Worker)
      → IsEnded k lease s
      → IsEnded k lease (remove_clients p ids s)
  unfolding remove_clients
  remove_clients-IsEnded [] k lease s h = h
  remove_clients-IsEnded (ident ∷ ids) k lease s h = remove_clients-IsEnded ids k lease _ h

  -- A clean-up that reads a clock behind the deadline of a lease ends it, whatever else the state holds:
  -- the task has no lease and is no longer active, and the lease is kept apart for a late report.
  pub cleanup_expired-IsEnded :
      (now later : ℕ) (envs : ℕ → Env) (k : Text) (lease : Lease) (s : State Value Worker)
      → get k s.leases ≡ some lease
      → lease.deadline < now
      → IsEnded k lease (cleanup_expired p now later envs s).1
  unfolding cleanup_expired
  cleanup_expired-IsEnded now later envs k lease s found over = remove_clients-IsEnded _ k lease _ (
      expire_leases-IsEnded envs k lease (keys_where (is_overdue now) s.leases) s
        (keys_where-any (is_overdue now) k s.leases lease found (lt→ltb lease.deadline now over))
        found)

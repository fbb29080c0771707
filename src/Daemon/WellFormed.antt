-- ===== src/Daemon/WellFormed.antt =====
-- The well-formed states of the daemon in devitd/src/main.rs, and the steps on tasks and leases that keep
-- them so.
use devit.Prelude.{
  ◌≤◌, ◌≡◌, refl, ap, sym, subst, Bool, true, false, not, ◌&&◌, Option, List, length, all, arith,
  Bool-cases, Option-cases, inl, inr,
}
use devit.Text.{Text, text_eq, text_eq_iff, text_eq_refl}
use devit.Tasks.{DelegatedTask, get, remove, insert, is_finished, unwrap_or}
use devit.Tasks.Maps.{length-remove, get-remove}
use devit.Daemon.{Platform, Env, State, Lease, Msg, TaskDetails, max_completed_tasks}
use devit.Daemon.Signing.{sign_msg}
use devit.Daemon.Store.{finalize_task, prune_completed, add_notification, insert_active_task}
use devit.Daemon.Outgoing.{notify_signed, queue_failure_notification, record_immediate_failure}
use devit.Daemon.Cleanup.{take_task}
use devit.Daemon.Delegate.{fail_both}
use devit.Daemon.Notify.{take_lease}
use devit.Daemon.Grant.{delegated_task, proceed_with_delegation}
use devit.Tasks.Keys.{has, is_some, has-remove, has-insert, all_pairs-remove, all_pairs-insert}
use devit.Daemon.Frames.{Framed, prune_completed-Framed}
use devit.Daemon.Completed.{is_open, is_closed, prune_completed-bounded}

module _ {A B : Type 0} where
  -- Every key of the first map is one of the second.
  abbrev pub IsWithin : List (Text × A) → List (Text × B) → Type 0
  IsWithin l m = (k : Text) → has k l ≡ true → has k m ≡ true

  pub remove-IsWithin :
      (k : Text) (l : List (Text × A)) (m : List (Text × B))
      → IsWithin l m
      → IsWithin (remove k l) m
  remove-IsWithin k l m sub j h =
      let both : (not (text_eq k j) && has j l) ≡ true = rw (has-remove j k l) at h in
      sub j (ground (arith, both))

  -- A key that the first map does not hold is removed from the second.
  pub IsWithin-remove :
      (k : Text) (l : List (Text × A)) (m : List (Text × B))
      → has k l ≡ false
      → IsWithin l m
      → IsWithin l (remove k m)
  IsWithin-remove k l m gone sub j h = rw (has-remove j k m) (elim (Bool-cases (text_eq k j)) [
    | inl same ↦ cc (subst (λ i. has i l ≡ false) ((text_eq_iff k j).0 same) gone, h)
    | inr other ↦ rw other (sub j h)
  ])

  pub insert-IsWithin :
      (k : Text) (a : A) (b : B) (l : List (Text × A)) (m : List (Text × B))
      → IsWithin l m
      → IsWithin (insert k a l) (insert k b m)
  insert-IsWithin k a b l m sub j h = rw (has-insert j k b m) (elim (Bool-cases (text_eq k j)) [
    | inl same ↦ rw same refl
    | inr other ↦ rw other (sub j (rw (has-insert j k a l, other) at h))
  ])

  pub IsWithin-insert :
      (k : Text) (b : B) (l : List (Text × A)) (m : List (Text × B))
      → IsWithin l m
      → IsWithin l (insert k b m)
  IsWithin-insert k b l m sub j h = rw (has-insert j k b m) (ground (arith, sub j h))

module _ {Value Worker : Type 0} where
  -- Every active task stands under its own id and has no final status, and every lease is one of an
  -- active task.
  abbrev pub IsLeased : State Value Worker → Type 0
  IsLeased s = (all is_open s.tasks_active ≡ true) × IsWithin s.leases s.tasks_active

  -- Every completed task stands under its own id and has a final status, and they are at most a thousand.
  abbrev pub IsArchived : State Value Worker → Type 0
  IsArchived s =
      (all is_closed s.tasks_completed ≡ true) × (length s.tasks_completed ≤ max_completed_tasks)

  abbrev pub IsWellFormed : State Value Worker → Type 0
  IsWellFormed s = IsLeased s × IsArchived s

  pub Framed-IsLeased : (s t : State Value Worker) → Framed s t → IsLeased s → IsLeased t
  Framed-IsLeased s t framed leased = subst IsLeased (sym framed) leased

  abbrev stored : DelegatedTask Value → State Value Worker → State Value Worker
  stored task s = record s { tasks_completed = insert task.id task s.tasks_completed }

  pub finalize_task-IsWellFormed :
      (task : DelegatedTask Value) (s : State Value Worker)
      → IsWellFormed s
      → IsWellFormed (finalize_task task s)
  unfolding finalize_task
  finalize_task-IsWellFormed task s ((opened, within), (closed, few)) =
      elim (Bool-cases (is_finished task.status)) [
        | inl ended ↦
            rw (ended, finalize_task)
              (
                Framed-IsLeased (stored task s) (prune_completed (stored task s))
                    (prune_completed-Framed (stored task s)) (opened, within),
                prune_completed-bounded (stored task s)
                    (all_pairs-insert is_closed task.id task s.tasks_completed
                      (rw (text_eq_refl task.id) ended) closed)
                    (unfold insert in omega (arith, few, length-remove task.id s.tasks_completed)),
              )
        | inr still ↦
            rw (still, finalize_task)
              (
                (
                  all_pairs-insert is_open task.id task s.tasks_active
                      (rw (text_eq_refl task.id) (ap not still)) opened,
                  IsWithin-insert task.id task s.leases s.tasks_active within,
                ),
                (closed, few),
              )
      ]

  pub take_task-IsWellFormed :
      (task_id : Text) (s : State Value Worker)
      → has task_id s.leases ≡ false
      → IsWellFormed s
      → IsWellFormed (take_task task_id s).1
  unfolding take_task
  take_task-IsWellFormed task_id s unleased ((opened, within), (closed, few)) =
      elim (Option-cases (get task_id s.tasks_active)) [
        | inl gone ↦
            rw (gone, take_task)
              (
                (opened, within),
                (
                  all_pairs-remove is_closed task_id s.tasks_completed closed,
                  omega (arith, few, length-remove task_id s.tasks_completed),
                ),
              )
        | inr (task, found) ↦
            rw (found, take_task)
              (
                (
                  all_pairs-remove is_open task_id s.tasks_active opened,
                  IsWithin-remove task_id s.leases s.tasks_active unleased within,
                ),
                (closed, few),
              )
      ]

  pub take_lease-IsWellFormed :
      (task_id : Text) (s : State Value Worker)
      → IsWellFormed s
      → IsWellFormed (take_lease task_id s).1
        × (has task_id (take_lease task_id s).1.leases ≡ false)
  unfolding take_lease
  take_lease-IsWellFormed task_id s ((opened, within), archived) =
      elim (Option-cases (get task_id s.leases)) [
        | inl gone ↦ rw (gone, take_lease) (((opened, within), archived), ap is_some gone)
        | inr (lease, found) ↦
            rw (found, take_lease)
              (
                ((opened, remove-IsWithin task_id s.leases s.tasks_active within), archived),
                ap is_some (get-remove task_id s.leases),
              )
      ]

  pub insert_active_task-IsWellFormed :
      (task : DelegatedTask Value) (lease : Lease) (s : State Value Worker)
      → not (is_finished task.status) ≡ true
      → IsWellFormed s
      → IsWellFormed (insert_active_task task (record s { leases = insert task.id lease s.leases }))
  unfolding insert_active_task
  insert_active_task-IsWellFormed task lease s still ((opened, within), archived) = (
    (
      all_pairs-insert is_open task.id task s.tasks_active (rw (text_eq_refl task.id) still) opened,
      insert-IsWithin task.id lease task s.leases s.tasks_active within,
    ),
    archived,
  )

module _ {Value Worker : Type 0} (p : Platform Value) where
  pub notify_signed-IsWellFormed :
      (target : Text) (msg : Msg Value) (s : State Value Worker)
      → IsWellFormed s
      → IsWellFormed (notify_signed p target msg s)
  unfolding notify_signed add_notification
  notify_signed-IsWellFormed target msg s h = elim (Option-cases (sign_msg p msg s.secret)) [
    | inl unsigned ↦ rw (unsigned, notify_signed) h
    | inr (signed, found) ↦ rw (found, notify_signed) h
  ]

  pub fail_both-IsWellFormed :
      (env : Env) (from : Text) (return_to : Option Text) (task_id worker : Text)
      (artifacts : Value) (details : TaskDetails Value) (s : State Value Worker)
      → IsWellFormed s
      → IsWellFormed (fail_both p env from return_to task_id worker artifacts details s)
  unfolding fail_both record_immediate_failure queue_failure_notification
  fail_both-IsWellFormed env from return_to task_id worker artifacts details s h =
      let target = unwrap_or from return_to in
      let recorded = finalize_task-IsWellFormed _ _ (notify_signed-IsWellFormed target _ s h) in
      elim (Bool-cases (text_eq target from)) [
        | inl same ↦ rw (same, fail_both) recorded
        | inr other ↦ rw (other, fail_both) (notify_signed-IsWellFormed from _ _ recorded)
      ]

  pub proceed_with_delegation-IsWellFormed :
      (env : Env) (msg : Msg Value) (task_id worker : Text) (return_to : Option Text) (tool : Text)
      (notify_worker : Bool) (details : TaskDetails Value) (s : State Value Worker)
      → IsWellFormed s
      → IsWellFormed
          (proceed_with_delegation p env msg task_id worker return_to tool notify_worker details s)
  unfolding proceed_with_delegation delegated_task add_notification
  proceed_with_delegation-IsWellFormed env msg task_id worker return_to tool true details s h =
      insert_active_task-IsWellFormed _ _ s refl h
  proceed_with_delegation-IsWellFormed env msg task_id worker return_to tool false details s h =
      insert_active_task-IsWellFormed _ _ s refl h

-- ===== src/Monitorization/Complete.antt =====
-- No task goes away unseen, while documents can be created.
use Prim.Native.String.{String}
use containerhub.Prelude.{
  ◌≡◌, refl, Bool, true, ◌||◌, Option, some, List, [], ◌∷◌, any, All, inl, inr, Bool-cases, ◌===◌,
  eq_refl, arith,
}
use containerhub.Monitorization.{
  TaskMonitorization, DockerTask, removed, recorded, see_removed, save_task_monitorization,
  create_from_removed_tasks,
}
use containerhub.Monitorization.Rounds.{
  IsFaithful, each_removed, removal, see_removed-cases, removed-walk,
}

-- The record says that the task went away, or the task runs, or another record says that it went.
abbrev pub settled :
    {D : Type 0} → List DockerTask → List (TaskMonitorization D) → TaskMonitorization D → Bool
settled tasks after entry =
    entry.status === removed
    || any (λ task. task.id === entry.task_id) tasks
    || recorded entry.task_id removed after

module _ {D : Type 0} (now : List (TaskMonitorization D) → D)
    (modified_by_for_service : String → Option String)
    (create_doc : List (TaskMonitorization D)
      → TaskMonitorization D
      → Option (TaskMonitorization D))
    (faithful : IsFaithful create_doc)
    (works : (memory : List (TaskMonitorization D)) (doc : TaskMonitorization D)
      → (stored : TaskMonitorization D) × (create_doc memory doc ≡ some stored)) where
  abbrev visited :
      List DockerTask
      → TaskMonitorization D
      → List (TaskMonitorization D)
      → List (TaskMonitorization D)
  visited = see_removed now modified_by_for_service create_doc

  visited-settled :
      (tasks : List DockerTask) (entry : TaskMonitorization D)
      (memory : List (TaskMonitorization D))
      → settled tasks (visited tasks entry memory) entry ≡ true
  unfolding see_removed save_task_monitorization recorded
  visited-settled tasks entry memory = elim (Bool-cases (entry.status === removed)) [
    | inl e ↦ rw e refl
    | inr e ↦ elim (Bool-cases (any (λ (task : DockerTask). task.id === entry.task_id) tasks)) [
      | inl k ↦ rw (e, k) refl
      | inr k ↦ elim (Bool-cases (recorded entry.task_id removed memory)) [
        | inl r ↦ rw (e, k, r) r
        | inr r ↦
            let doc = removal now modified_by_for_service create_doc entry memory in
            let (stored, c) = works memory doc in
            let (id, status) = faithful memory doc stored c in
            rw (e, k, r, c, id, status, eq_refl entry.task_id) refl
      ]
    ]
  ]

  visited-keeps :
      (tasks : List DockerTask) (other entry : TaskMonitorization D)
      (memory : List (TaskMonitorization D))
      → settled tasks memory entry ≡ true
      → settled tasks (visited tasks other memory) entry ≡ true
  unfolding recorded
  visited-keeps tasks other entry memory h =
      elim (see_removed-cases now modified_by_for_service create_doc faithful tasks other memory) [
        | inl same ↦ rw same h
        | inr (news, more, _) ↦ rw more (ground arith)
      ]

  walk-keeps :
      (tasks : List DockerTask) (entry : TaskMonitorization D)
      (entries memory : List (TaskMonitorization D))
      → settled tasks memory entry ≡ true
      → settled tasks
          (each_removed now modified_by_for_service create_doc tasks entries memory)
          entry
        ≡ true
  walk-keeps tasks entry [] memory h = h
  walk-keeps tasks entry (other ∷ entries) memory h =
      walk-keeps tasks entry entries _ (visited-keeps tasks other entry memory h)

  walk-settled :
      (tasks : List DockerTask) (entries memory : List (TaskMonitorization D))
      → All
          (λ entry.
            settled tasks
              (each_removed now modified_by_for_service create_doc tasks entries memory)
              entry
            ≡ true)
          entries
  walk-settled tasks [] memory = tt
  walk-settled tasks (entry ∷ entries) memory = (
    walk-keeps tasks entry entries _ (visited-settled tasks entry memory),
    walk-settled tasks entries (visited tasks entry memory),
  )

  -- While every document can be created, and is of the task and with the status that were given, the
  -- pass over the removed tasks ends, and each record that was there says that its task went away, or
  -- the task is among those that run, or another record says afterwards that it went away.
  pub removed-settled :
      (tasks : List DockerTask) (memory : List (TaskMonitorization D))
      → (after : List (TaskMonitorization D)) × (create_from_removed_tasks now
            modified_by_for_service create_doc tasks memory
          ≡ some after)
        × All (λ entry. settled tasks after entry ≡ true) memory
  removed-settled tasks memory = (
    each_removed now modified_by_for_service create_doc tasks memory memory,
    removed-walk now modified_by_for_service create_doc faithful tasks memory,
    walk-settled tasks memory memory,
  )

-- ===== src/Monitorization/Distinct.antt =====
-- A check of the tasks as a whole: it ends, it keeps the records distinct, and it keeps them few.
use Prim.Native.String.{String}
use containerhub.Prelude.{
  ℕ, zero, suc, ◌≤◌, ◌≡◌, refl, false, Option, some, List, [], ◌∷◌, length, take, length-take, ltb,
  ◌⊎◌, inl, inr, Bool-cases, Option-cases, ◌===◌, eq_iff, arith, ap, map?,
}
use containerhub.Monitorization.{
  TaskMonitorization, DockerTask, Named, running, recorded, name_of, see_running, see_removed,
  save_task_monitorization, create_from_running_tasks, purge, check_tasks,
}
use containerhub.Monitorization.Rounds.{IsFaithful, each_removed, see_removed-cases, removed-walk}

-- No two records are of one task with one status.
abbrev pub AllDistinct : {D : Type 0} → List (TaskMonitorization D) → Type 0
AllDistinct [] = Unit
AllDistinct (entry ∷ entries) =
    (recorded entry.task_id entry.status entries ≡ false) × AllDistinct entries

-- Nothing is added, or one record that was not there.
abbrev Grown : {D : Type 0} → (before after : List (TaskMonitorization D)) → Type 0
Grown {D = D} before after =
    (after ≡ before)
    ⊎ ((news : TaskMonitorization D) × (after ≡ news ∷ before)
        × (recorded news.task_id news.status before ≡ false))

Grown-AllDistinct :
    {D : Type 0} (before after : List (TaskMonitorization D))
    → Grown before after
    → AllDistinct before
    → AllDistinct after
Grown-AllDistinct before after (inl same) d = rw same d
Grown-AllDistinct before after (inr (news, more, fresh)) d = rw more (fresh, d)

recorded-take :
    {D : Type 0} (task_id status : String) (n : ℕ) (memory : List (TaskMonitorization D))
    → recorded task_id status memory ≡ false
    → recorded task_id status (take n memory) ≡ false
unfolding recorded
recorded-take task_id status zero memory h = refl
recorded-take task_id status (suc n) [] h = refl
recorded-take task_id status (suc n) (entry ∷ memory) h =
    ground (arith, recorded-take task_id status n memory)

take-AllDistinct :
    {D : Type 0} (n : ℕ) (memory : List (TaskMonitorization D))
    → AllDistinct memory
    → AllDistinct (take n memory)
take-AllDistinct zero memory d = tt
take-AllDistinct (suc n) [] d = tt
take-AllDistinct (suc n) (entry ∷ memory) (fresh, d) =
    (recorded-take entry.task_id entry.status n memory fresh, take-AllDistinct n memory d)

module _ {D : Type 0} (now : List (TaskMonitorization D) → D)
    (modified_by_for_service : String → Option String)
    (create_doc : List (TaskMonitorization D)
      → TaskMonitorization D
      → Option (TaskMonitorization D))
    (faithful : IsFaithful create_doc) where
  abbrev started :
      DockerTask
      → (service_name node_name : String) → List (TaskMonitorization D)
      → TaskMonitorization D
  started task service_name node_name memory = record {
    date = now memory;
    status = task.state;
    task_id = task.id;
    service_id = task.service_id;
    service_name = service_name;
    node_id = task.node_id;
    node_name = node_name;
    modified_by = modified_by_for_service task.service_id;
  }

  see_running-Grown :
      (services nodes : List Named) (task : DockerTask) (memory : List (TaskMonitorization D))
      → Grown memory (see_running now modified_by_for_service create_doc services nodes task memory)
  unfolding see_running save_task_monitorization
  see_running-Grown services nodes task memory = elim (Bool-cases (task.state === running)) [
    | inr e ↦ inl (rw e refl)
    | inl e ↦ elim (Bool-cases (recorded task.id running memory)) [
      | inl r ↦ inl (rw (e, r) refl)
      | inr r ↦
          let doc =
            started task (name_of services task.service_id) (name_of nodes task.node_id) memory in
          elim (Option-cases (create_doc memory doc)) [
            | inl c ↦ inl (rw (e, r, c) refl)
            | inr (news, c) ↦
                let (id, status) = faithful memory doc news c in
                let is_running : task.state ≡ running = (eq_iff task.state running).0 e in
                inr (news, rw (e, r, c) refl, rw (id, status, is_running) r)
          ]
    ]
  ]

  running-AllDistinct :
      (services nodes : List Named) (tasks : List DockerTask) (memory : List (TaskMonitorization D))
      → AllDistinct memory
      → AllDistinct (
          create_from_running_tasks now modified_by_for_service create_doc services nodes tasks
            memory)
  unfolding create_from_running_tasks
  running-AllDistinct services nodes [] memory d = d
  running-AllDistinct services nodes (task ∷ tasks) memory d =
      running-AllDistinct services nodes tasks _
        (Grown-AllDistinct memory _ (see_running-Grown services nodes task memory) d)

  see_removed-Grown :
      (tasks : List DockerTask) (entry : TaskMonitorization D)
      (memory : List (TaskMonitorization D))
      → Grown memory (see_removed now modified_by_for_service create_doc tasks entry memory)
  see_removed-Grown tasks entry memory =
      elim (see_removed-cases now modified_by_for_service create_doc faithful tasks entry memory) [
        | inl same ↦ inl same
        | inr (news, more, (id, status, fresh)) ↦ inr (news, more, rw (id, status) fresh)
      ]

  removed-AllDistinct :
      (tasks : List DockerTask) (entries memory : List (TaskMonitorization D))
      → AllDistinct memory
      → AllDistinct (each_removed now modified_by_for_service create_doc tasks entries memory)
  removed-AllDistinct tasks [] memory d = d
  removed-AllDistinct tasks (entry ∷ entries) memory d =
      removed-AllDistinct tasks entries _
        (Grown-AllDistinct memory _ (see_removed-Grown tasks entry memory) d)

  purged :
      (quantity : ℕ) (memory : List (TaskMonitorization D))
      → AllDistinct memory
      → AllDistinct (purge quantity memory) × (length (purge quantity memory) ≤ quantity)
  unfolding purge
  purged quantity memory d = elim (Bool-cases (ltb quantity (length memory))) [
    | inl e ↦ rw e (take-AllDistinct quantity memory d, omega (arith, length-take quantity memory))
    | inr e ↦ rw e (d, ground arith)
  ]

  -- If each document that is created is of the task and with the status that were given, and no two
  -- records are of one task with one status, then a check of the tasks ends, no two records are so
  -- afterwards, and at most the given number of records is kept.
  pub check_tasks-AllDistinct :
      (quantity : ℕ) (tasks : List DockerTask) (services nodes : List Named)
      (memory : List (TaskMonitorization D))
      → AllDistinct memory
      → (after : List (TaskMonitorization D)) × (check_tasks now modified_by_for_service create_doc
            quantity tasks services nodes memory
          ≡ some after)
        × AllDistinct after
        × (length after ≤ quantity)
  unfolding check_tasks
  check_tasks-AllDistinct quantity tasks services nodes memory d =
      let seen =
        create_from_running_tasks now modified_by_for_service create_doc services nodes tasks
          memory in
      let walked = each_removed now modified_by_for_service create_doc tasks seen seen in
      let (distinct, few) =
        purged quantity walked (
          removed-AllDistinct tasks seen seen
            (running-AllDistinct services nodes tasks memory d)) in
      (
        purge quantity walked,
        ap (map? (purge quantity))
            (removed-walk now modified_by_for_service create_doc faithful tasks seen),
        distinct,
        few,
      )

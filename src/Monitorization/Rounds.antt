-- ===== src/Monitorization/Rounds.antt =====
-- The loop over the records, whose array grows under it, as a plain walk over the records that were
-- there when it began.
use Prim.Native.String.{String}
use containerhub.Prelude.{
  ℕ, zero, suc, ◌+◌, ◌≤◌, ◌≡◌, refl, ap, false, Option, none, some, List, [], ◌∷◌, ◌++◌, length,
  get_elem?, any, ◌⊎◌, inl, inr, Bool-cases, Option-cases, ◌===◌, eq_refl, arith,
}
use containerhub.Monitorization.{
  TaskMonitorization, DockerTask, removed, recorded, save_task_monitorization, see_removed,
  removed_rounds, create_from_removed_tasks,
}

-- The document that is created is of the task and with the status that were given.
abbrev pub IsFaithful :
    {D : Type 0}
    → (List (TaskMonitorization D) → TaskMonitorization D → Option (TaskMonitorization D))
    → Type 0
IsFaithful {D = D} create_doc =
    (memory : List (TaskMonitorization D)) (doc stored : TaskMonitorization D)
    → create_doc memory doc ≡ some stored
    → (stored.task_id ≡ doc.task_id) × (stored.status ≡ doc.status)

get_elem?-at {ℓ} :
    {A : Type ℓ} (front back : List A) (x : A)
    → get_elem? (front ++ x ∷ back) (length front) ≡ some x
get_elem?-at [] back x = refl
get_elem?-at (y ∷ front) back x = get_elem?-at front back x

get_elem?-end {ℓ} : {A : Type ℓ} (front : List A) → get_elem? (front ++ []) (length front) ≡ none
get_elem?-end [] = refl
get_elem?-end (y ∷ front) = get_elem?-end front

shift {ℓ} :
    {A : Type ℓ} (front back : List A) (x : A) → (front ++ x ∷ []) ++ back ≡ front ++ x ∷ back
shift [] back x = refl
shift (y ∷ front) back x = ap (◌∷◌ y) (shift front back x)

length-snoc {ℓ} :
    {A : Type ℓ} (front : List A) (x : A) → length (front ++ x ∷ []) ≡ suc (length front)
length-snoc [] x = refl
length-snoc (y ∷ front) x = ap suc (length-snoc front x)

module _ {D : Type 0} (now : List (TaskMonitorization D) → D)
    (modified_by_for_service : String → Option String)
    (create_doc : List (TaskMonitorization D)
      → TaskMonitorization D
      → Option (TaskMonitorization D)) where
  -- Each record of `entries` in turn.
  abbrev pub each_removed :
      List DockerTask
      → List (TaskMonitorization D)
      → List (TaskMonitorization D)
      → List (TaskMonitorization D)
  each_removed tasks [] memory = memory
  each_removed tasks (entry ∷ entries) memory =
      each_removed tasks entries
        (see_removed now modified_by_for_service create_doc tasks entry memory)

  -- What a round adds.
  abbrev pub IsNews :
      TaskMonitorization D → List (TaskMonitorization D) → TaskMonitorization D → Type 0
  IsNews entry memory news =
      (news.task_id ≡ entry.task_id)
      × (news.status ≡ removed)
      × (recorded entry.task_id removed memory ≡ false)

  abbrev pub removal : TaskMonitorization D → List (TaskMonitorization D) → TaskMonitorization D
  removal entry memory = record entry {
    date = now memory;
    status = removed;
    modified_by = modified_by_for_service entry.service_id;
  }

  module _ (faithful : IsFaithful create_doc) where
    pub see_removed-cases :
        (tasks : List DockerTask) (entry : TaskMonitorization D)
        (memory : List (TaskMonitorization D))
        → let seen = see_removed now modified_by_for_service create_doc tasks entry memory in
          (seen ≡ memory)
          ⊎ ((news : TaskMonitorization D) × (seen ≡ news ∷ memory) × IsNews entry memory news)
    unfolding see_removed save_task_monitorization
    see_removed-cases tasks entry memory = elim (Bool-cases (entry.status === removed)) [
      | inl e ↦ inl (rw e refl)
      | inr e ↦ elim (Bool-cases (any (λ (task : DockerTask). task.id === entry.task_id) tasks)) [
        | inl k ↦ inl (rw (e, k) refl)
        | inr k ↦ elim (Bool-cases (recorded entry.task_id removed memory)) [
          | inl r ↦ inl (rw (e, k, r) refl)
          | inr r ↦ elim (Option-cases (create_doc memory (removal entry memory))) [
            | inl c ↦ inl (rw (e, k, r, c) refl)
            | inr (news, c) ↦
                let (id, status) = faithful memory (removal entry memory) news c in
                inr (news, rw (e, k, r, c) refl, (id, status, r))
          ]
        ]
      ]
    ]

    see_removed-again :
        (tasks : List DockerTask) (entry news : TaskMonitorization D)
        (memory : List (TaskMonitorization D))
        → IsNews entry memory news
        → see_removed now modified_by_for_service create_doc tasks entry (news ∷ memory)
          ≡ news ∷ memory
    unfolding see_removed save_task_monitorization recorded
    see_removed-again tasks entry news memory (e, s, _) =
        elim (Bool-cases (entry.status === removed)) [
          | inl k ↦ rw k refl
          | inr k ↦
              elim (Bool-cases (any (λ (task : DockerTask). task.id === entry.task_id) tasks)) [
                | inl t ↦ rw (k, t) refl
                | inr t ↦ rw (k, t, e, s, eq_refl entry.task_id) refl
              ]
        ]

    -- The loop, from behind `front`.
    abbrev Runs : List DockerTask → ℕ → (front todo : List (TaskMonitorization D)) → Type 0
    Runs tasks fuel front todo =
        removed_rounds now modified_by_for_service create_doc fuel tasks (front ++ todo)
          (length front)
        ≡ some (each_removed tasks todo (front ++ todo))

    advance :
        (tasks : List DockerTask) (fuel : ℕ) (front todo : List (TaskMonitorization D))
        (entry : TaskMonitorization D)
        → Runs tasks fuel (front ++ entry ∷ []) todo
        → removed_rounds now modified_by_for_service create_doc fuel tasks
            (front ++ entry ∷ todo)
            (suc (length front))
          ≡ some (each_removed tasks todo (front ++ entry ∷ todo))
    advance tasks fuel front todo entry runs =
        rw (← shift front todo entry, ← length-snoc front entry) runs

    rounds_from :
        (tasks : List DockerTask) (fuel : ℕ) (front todo : List (TaskMonitorization D))
        → suc (length todo + length todo) ≤ fuel
        → Runs tasks fuel front todo
    unfolding removed_rounds
    rounds_from tasks zero front todo h = absurd (omega arith)
    rounds_from tasks (suc fuel) front [] h = rw (get_elem?-end front) refl
    rounds_from tasks (suc zero) front (entry ∷ todo) h = absurd (omega arith)
    rounds_from tasks (suc (suc fuel)) front (entry ∷ todo) h =
        rw (get_elem?-at front todo entry)
          (elim (see_removed-cases tasks entry (front ++ entry ∷ todo)) [
            | inl same ↦ rw same (
                advance tasks (suc fuel) front todo entry
                  (rounds_from tasks (suc fuel) (front ++ entry ∷ []) todo (omega arith)))
            | inr (news, more, is_news) ↦ rw more (
                rw
                  (
                    get_elem?-at front todo entry,
                    see_removed-again tasks entry news (front ++ entry ∷ todo) is_news,
                  )
                  (advance tasks fuel (news ∷ front) todo entry
                    (rounds_from tasks fuel (news ∷ front ++ entry ∷ []) todo (omega arith))))
          ])

    -- The loop ends, and its outcome is that of the walk over the records that were there when it
    -- began, if each document that is created is of the task and with the status that were given.
    pub removed-walk :
        (tasks : List DockerTask) (memory : List (TaskMonitorization D))
        → create_from_removed_tasks now modified_by_for_service create_doc tasks memory
          ≡ some (each_removed tasks memory memory)
    unfolding create_from_removed_tasks
    removed-walk tasks memory =
        rounds_from tasks (suc (length memory + length memory)) [] memory (omega arith)

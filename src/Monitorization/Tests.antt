-- ===== src/Monitorization/Tests.antt =====
-- Checks of concrete tasks. Dates are numbers, and the repository stores what it is given.
use Prim.Native.String.{String}
use containerhub.Prelude.{
  inr, if◌then◌else◌, ℕ, ◌≤◌, ◌≡◌, refl, true, Option, none, some, List, [], ◌∷◌, length, All,
}
use containerhub.Monitorization.{
  TaskMonitorization, DockerTask, name_of, recorded, check_tasks, create_from_removed_tasks,
}
use containerhub.Monitorization.Rounds.{IsFaithful, each_removed, removed-walk}
use containerhub.Monitorization.Distinct.{AllDistinct, check_tasks-AllDistinct}
use containerhub.Monitorization.Polling.{
  Event, starts, load_ends, check_ends, stops, after, AllCalm, loops, one_loop,
}
use containerhub.Monitorization.Complete.{settled, removed-settled}

abbrev now : List (TaskMonitorization ℕ) → ℕ
now memory = length memory

abbrev nobody : String → Option String
nobody service_id = none

abbrev stores : List (TaskMonitorization ℕ) → TaskMonitorization ℕ → Option (TaskMonitorization ℕ)
stores memory doc = some doc

stores-IsFaithful : IsFaithful stores
stores-IsFaithful memory doc stored e = let same : doc ≡ stored = cc in rw same (refl, refl)

abbrev old_entry : TaskMonitorization ℕ
old_entry = record {
  date = 0;
  status = "running";
  task_id = "t1";
  service_id = "s1";
  service_name = "web";
  node_id = "n1";
  node_name = "host";
  modified_by = none;
}

abbrev kept_entry : TaskMonitorization ℕ
kept_entry = record old_entry { task_id = "t2" }

abbrev new_task : DockerTask
new_task = record { id = "t3"; node_id = "n1"; service_id = "s1"; state = "running" }

abbrev kept_task : DockerTask
kept_task = record new_task { id = "t2" }

abbrev memory : List (TaskMonitorization ℕ)
memory = old_entry ∷ kept_entry ∷ []

abbrev tasks : List DockerTask
tasks = kept_task ∷ new_task ∷ []

memory-AllDistinct : AllDistinct memory
unfolding recorded
memory-AllDistinct = (refl, (refl, tt))

removed-walk_example :
    create_from_removed_tasks now nobody stores tasks memory
    ≡ some (each_removed now nobody stores tasks memory memory)
removed-walk_example = removed-walk now nobody stores stores-IsFaithful tasks memory

check_tasks-AllDistinct_example :
    (after : List (TaskMonitorization ℕ)) × (check_tasks now nobody stores 3 tasks [] [] memory
      ≡ some after)
    × AllDistinct after
    × (length after ≤ 3)
check_tasks-AllDistinct_example =
    check_tasks-AllDistinct now nobody stores stores-IsFaithful 3 tasks [] [] memory
      memory-AllDistinct

removed-settled_example :
    (after : List (TaskMonitorization ℕ)) × (create_from_removed_tasks now nobody stores tasks
        memory
      ≡ some after)
    × All (λ entry. settled tasks after entry ≡ true) memory
removed-settled_example =
    removed-settled now nobody stores stores-IsFaithful (λ held doc. (doc, refl)) tasks memory

-- The task that went away, the one that came up, and the two that were known.
check_tasks_run :
    check_tasks now nobody stores 3 tasks []
      ((record { id = "n1"; name = some "host" }) ∷ [])
      memory
    ≡ some (
        record old_entry { date = 3; status = "removed" }
        ∷ record old_entry { date = 2; task_id = "t3"; service_name = "s1" }
        ∷ old_entry
        ∷ [])
unfolding check_tasks recorded name_of
check_tasks_run = refl

-- Started, stopped and started again, the latest event first.
abbrev calm_events : List Event
calm_events = starts ∷ stops ∷ check_ends ∷ load_ends ∷ starts ∷ []

calm_events-AllCalm : AllCalm calm_events
unfolding after
calm_events-AllCalm = (inr refl, (tt, (tt, (tt, (inr refl, tt)))))

one_loop_example :
    (loops (after calm_events) ≤ 1)
    × ((if (after calm_events).started then loops (after calm_events) else 1) ≡ 1)
    × ((if (after calm_events).started then [] else (after calm_events).pending) ≡ [])
one_loop_example = one_loop calm_events calm_events-AllCalm

-- A start while a check is under way that began before the stop leaves two loops.
two_loops : loops (after (starts ∷ stops ∷ load_ends ∷ starts ∷ [])) ≡ 2
unfolding after
two_loops = refl

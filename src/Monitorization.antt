-- ===== src/Monitorization.antt =====
-- packages/containerhub-back/src/modules/monitoring/services/TaskMonitorizationManager.ts:
-- the records of tasks that came up or went away, newest first, and the passes that add and purge
-- them. What the repository answers to `createDoc`, the time and the audit log are parameters, which
-- may answer differently as the records change; a call that fails answers `none`.

pub mod Rounds
pub mod Distinct
pub mod Complete
pub mod Polling
mod Tests
use Prim.Native.String.{String}
use containerhub.Prelude.{
  ℕ, zero, suc, ◌≡◌, refl, Bool, true, false, ◌&&◌, not, Option, none, some, List, [], ◌∷◌, length,
  ◌+◌, ltb, take, get_elem?, any, find, map?, bind?, ◌otherwise◌, if◌then◌else◌, ◌===◌,
}

pub record TaskMonitorization (D : Type 0) : Type 0 where
  pub date : D
  pub status : String
  pub task_id : String
  pub service_id : String
  pub service_name : String
  pub node_id : String
  pub node_name : String
  pub modified_by : Option String

-- A task as Docker lists it; a named thing is a service with its name, or a node with its host name.
pub record DockerTask : Type 0 where
  pub id : String
  pub node_id : String
  pub service_id : String
  pub state : String

pub record Named : Type 0 where
  pub id : String
  pub name : Option String

abbrev pub removed : String
removed = "removed"

abbrev pub running : String
running = "running"

abbrev pub is_record : {D : Type 0} → String → String → TaskMonitorization D → Bool
is_record task_id status entry = (entry.task_id === task_id) && (entry.status === status)

-- `memoryTaskMonitorizations.find(...)`, tested for a result.
unfoldable pub recorded : {D : Type 0} → String → String → List (TaskMonitorization D) → Bool
recorded task_id status memory = any (is_record task_id status) memory

-- `things.find(t => t.ID === id)?.name ?? id`
unfoldable pub name_of : List Named → String → String
name_of things id =
    bind? (find (λ (thing : Named). thing.id === id) things) (λ thing. thing.name) otherwise id

abbrev pub put {ℓ} : {A : Type ℓ} → List A → Option A → List A
put memory none = memory
put memory (some doc) = doc ∷ memory

-- The end of a loop, or its next round.
abbrev pub met {ℓ κ} : {A : Type ℓ} {B : Type κ} → Option A → B → (A → B) → B
met none end next = end
met (some entry) end next = next entry

unfoldable pub purge {ℓ} : {A : Type ℓ} → ℕ → List A → List A
purge quantity memory = if ltb quantity (length memory) then take quantity memory else memory

module _ {D : Type 0} (now : List (TaskMonitorization D) → D)
    (modified_by_for_service : String → Option String)
    (create_doc : List (TaskMonitorization D)
      → TaskMonitorization D
      → Option (TaskMonitorization D)) where
  unfoldable pub save_task_monitorization :
      DockerTask
      → (service_name node_name : String) → List (TaskMonitorization D)
      → List (TaskMonitorization D)
  save_task_monitorization task service_name node_name memory = put memory (
      create_doc memory (record {
        date = now memory;
        status = task.state;
        task_id = task.id;
        service_id = task.service_id;
        service_name = service_name;
        node_id = task.node_id;
        node_name = node_name;
        modified_by = modified_by_for_service task.service_id;
      }))

  -- One round of `createTaskMonitorizationsFromRunningTasks`.
  unfoldable pub see_running :
      (services nodes : List Named)
      → DockerTask
      → List (TaskMonitorization D)
      → List (TaskMonitorization D)
  unfolding save_task_monitorization
  see_running services nodes task memory =
      if task.state === running
      then (if recorded task.id running memory
          then memory
          else save_task_monitorization task (name_of services task.service_id)
              (name_of nodes task.node_id) memory)
      else memory

  unfoldable pub create_from_running_tasks :
      (services nodes : List Named)
      → List DockerTask
      → List (TaskMonitorization D)
      → List (TaskMonitorization D)
  unfolding see_running
  create_from_running_tasks services nodes [] memory = memory
  create_from_running_tasks services nodes (task ∷ tasks) memory =
      create_from_running_tasks services nodes tasks (see_running services nodes task memory)

  -- One round of `createTaskMonitorizationsFromRemovedTasks`.
  unfoldable pub see_removed :
      List DockerTask
      → TaskMonitorization D
      → List (TaskMonitorization D)
      → List (TaskMonitorization D)
  unfolding save_task_monitorization
  see_removed tasks entry memory =
      if entry.status === removed
      then memory
      else if any (λ task. task.id === entry.task_id) tasks
      then memory
      else if recorded entry.task_id removed memory
      then memory
      else save_task_monitorization
          (record {
            id = entry.task_id;
            node_id = entry.node_id;
            service_id = entry.service_id;
            state = removed;
          })
          entry.service_name entry.node_name memory

  -- `for (const r of memory)`: the loop takes the record at the next index of the very array to whose
  -- front the rounds add, so that a record is met again behind the one that it caused.
  unfoldable pub removed_rounds :
      ℕ → List DockerTask → List (TaskMonitorization D) → ℕ → Option (List (TaskMonitorization D))
  unfolding see_removed
  removed_rounds zero tasks memory index = none
  removed_rounds (suc fuel) tasks memory index =
      met (get_elem? memory index) (some memory)
        (λ entry. removed_rounds fuel tasks (see_removed tasks entry memory) (suc index))

  -- Two rounds for each record, and one to end, are enough.
  unfoldable pub create_from_removed_tasks :
      List DockerTask → List (TaskMonitorization D) → Option (List (TaskMonitorization D))
  unfolding removed_rounds
  create_from_removed_tasks tasks memory =
      removed_rounds (suc (length memory + length memory)) tasks memory 0

  -- `checkTasks`, once the settings and Docker have answered.
  unfoldable pub check_tasks :
      ℕ
      → List DockerTask
      → (services nodes : List Named) → List (TaskMonitorization D)
      → Option (List (TaskMonitorization D))
  unfolding create_from_running_tasks create_from_removed_tasks purge
  check_tasks quantity tasks services nodes memory =
      map? (purge quantity)
        (create_from_removed_tasks tasks (create_from_running_tasks services nodes tasks memory))

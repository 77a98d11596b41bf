-- ===== src/GhostContainers.antt =====
-- packages/containerhub-back/src/modules/services/services/ServiceService.ts: `fetchGhostContainers`,
-- the containers on all nodes that no running task of the swarm stands for. What Docker and the
-- agents answer is given.
pub mod Found
mod Tests
use Prim.Native.String.{String}
use containerhub.Prelude.{
  ℕ, ◌≡◌, Bool, true, false, ◌&&◌, ◌||◌, not, Option, none, some, List, [], ◌∷◌, ◌++◌, map, filter,
  is_nil, ◌otherwise◌, bind?, if◌then◌else◌, ◌===◌, Outcome, ok, throw, Fault, ◌>>=◌,
}
use containerhub.Prelude.Text.{◌<>◌, non_empty}
use containerhub.Prelude.Dict.{lookup, insert}

-- Other fields of a container are carried along in `image`, `status` and `state`.
pub record DockerContainer : Type 0 where
  pub id : String
  pub image : String
  pub status : String
  pub state : String
  pub labels : Option (List (String × String))

pub record SwarmTask : Type 0 where
  pub id : String
  pub state : Option String
  pub container_id : Option String

pub record SwarmNode : Type 0 where
  pub id : String
  pub state : Option String

-- A container with `NodeID`, the node that it was found on.
pub record GhostContainer : Type 0 where
  pub container : DockerContainer
  pub node_id : Option String

abbrev pub task_label : String
task_label = "com.docker.swarm.task.id"

abbrev is_text : String → Option String → Bool
is_text s none = false
is_text s (some t) = t === s

abbrev on_node : Option String → DockerContainer → GhostContainer
on_node node_id container = record { container = container; node_id = node_id }

-- `new Map(tasks.map(task => [task.ID, task]))`: the last task of an id stays.
unfoldable pub tasks_by_id : List SwarmTask → List (String × SwarmTask) → List (String × SwarmTask)
tasks_by_id [] index = index
tasks_by_id (task ∷ tasks) index = tasks_by_id tasks (insert task.id task index)

-- `node.ID === localNodeId || node.Status?.State === 'down'`
unfoldable pub is_skipped : Option String → SwarmNode → Bool
is_skipped local_node_id node = is_text node.id local_node_id || is_text "down" node.state

abbrev pub cannot_scan : String → Fault
cannot_scan node_id = record {
  message = "Cannot scan containers on node " <> node_id;
  status_code = some 503;
}

-- What an agent answers; any failure reads the same.
abbrev answered : {A : Type 0} → String → Outcome A → Outcome A
answered node_id (ok a) = ok a
answered node_id (throw _) = throw (cannot_scan node_id)

-- The loop over the nodes; without a client, each call of `running` fails.
unfoldable pub scan_nodes :
    (running : String → Outcome (List DockerContainer))
    → Option String
    → List SwarmNode
    → List GhostContainer
    → Outcome (List GhostContainer)
unfolding is_skipped
scan_nodes running local_node_id [] containers = ok containers
scan_nodes running local_node_id (node ∷ nodes) containers =
    if is_skipped local_node_id node
    then scan_nodes running local_node_id nodes containers
    else (answered node.id (running node.id) >>= λ found.
        scan_nodes running local_node_id nodes (containers ++ map (on_node (some node.id)) found))

-- `taskId ? tasksById.get(taskId) : undefined`
unfoldable pub task_of : List (String × SwarmTask) → Option String → Option SwarmTask
task_of index none = none
task_of index (some task_id) = if non_empty task_id then lookup task_id index else none

abbrev pub is_truthy : Option String → Bool
is_truthy none = false
is_truthy (some s) = non_empty s

abbrev pub stands_for : DockerContainer → Option SwarmTask → Bool
stands_for container none = false
stands_for container (some task) =
    is_text "running" task.state && is_text container.id task.container_id

-- Whether `flatMap` keeps a container.
unfoldable pub is_ghost : List (String × SwarmTask) → DockerContainer → Bool
unfolding task_of
is_ghost index container =
    let labels = container.labels otherwise [] in
    let task_id = lookup task_label labels in
    if not (is_nil labels) && not (is_truthy task_id)
    then false
    else not (stands_for container (task_of index task_id))

unfoldable pub fetch_ghost_containers :
    (running : String → Outcome (List DockerContainer))
    → (local_node_id : Option String) → List DockerContainer
    → List SwarmTask
    → List SwarmNode
    → Outcome (List GhostContainer)
unfolding scan_nodes is_ghost tasks_by_id
fetch_ghost_containers running local_node_id local_containers tasks nodes =
    scan_nodes running local_node_id nodes (map (on_node local_node_id) local_containers)
    >>= λ containers.
        ok (filter (λ found. is_ghost (tasks_by_id tasks []) found.container) containers)

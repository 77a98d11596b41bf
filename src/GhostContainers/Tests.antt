-- ===== src/GhostContainers/Tests.antt =====
-- A swarm of two nodes.
use Prim.Native.String.{String}
use containerhub.Prelude.{
  ◌≡◌, refl, some, List, [], ◌∷◌, filter, find, if◌then◌else◌, ◌===◌, Outcome, ok, throw, error,
}
use containerhub.Prelude.Dict.{lookup, insert}
use containerhub.GhostContainers.{
  DockerContainer, SwarmTask, SwarmNode, task_label, is_ghost, tasks_by_id, fetch_ghost_containers,
}
use containerhub.GhostContainers.Found.{
  fails, found_on_all, asked, unless_failed, fetch_ghost_containers-found,
}

abbrev local_container : DockerContainer
local_container = record {
  id = "c1";
  image = "nginx";
  status = "Up 2 days";
  state = "running";
  labels = some ((task_label, "t1") ∷ []);
}

abbrev lost_container : DockerContainer
lost_container = record local_container { id = "c2"; labels = some ((task_label, "gone") ∷ []) }

abbrev running_on : String → Outcome (List DockerContainer)
running_on node_id = if node_id === "n2" then ok (lost_container ∷ []) else throw (error "refused")

abbrev tasks : List SwarmTask
tasks = record { id = "t1"; state = some "running"; container_id = some "c1" } ∷ []

abbrev nodes : List SwarmNode
nodes =
    record { id = "n1"; state = some "ready" }
    ∷ record { id = "n2"; state = some "ready" }
    ∷ record { id = "n3"; state = some "down" }
    ∷ []

fetch_run :
    fetch_ghost_containers running_on (some "n1") (local_container ∷ []) tasks nodes
    ≡ ok (record { container = lost_container; node_id = some "n2" } ∷ [])
unfolding fetch_ghost_containers lookup insert
fetch_run = refl

fetch_ghost_containers-found_example :
    fetch_ghost_containers running_on (some "n1") (local_container ∷ []) tasks nodes
    ≡ unless_failed running_on
        (some "n1")
        (find (fails running_on (some "n1")) (asked running_on (some "n1") nodes))
        (filter
          (λ found. is_ghost (tasks_by_id tasks []) found.container)
          (record { container = local_container; node_id = some "n1" }
            ∷ found_on_all running_on (some "n1") (asked running_on (some "n1") nodes)))
fetch_ghost_containers-found_example =
    fetch_ghost_containers-found running_on (some "n1") (local_container ∷ []) tasks nodes

-- ===== src/GhostContainers/Found.antt =====
-- What the scan of the nodes finds, and when it fails.
use Prim.Native.String.{String}
use mathlib.Core.List.{append_assoc, append-nil}
use containerhub.Prelude.{
  ◌≡◌, refl, sym, ap, ◌∙◌, Bool, true, false, not, Option, none, some, List, [], ◌∷◌, ◌++◌, map,
  filter, find, inl, inr, Bool-cases, if◌then◌else◌, Outcome, ok, throw, ◌>>=◌, ◌or_else◌, ◌===◌,
  ◌||◌,
}
use containerhub.Prelude.Text.{is_empty}
use containerhub.GhostContainers.{
  stands_for, DockerContainer, SwarmTask, SwarmNode, GhostContainer, on_node, is_skipped,
  cannot_scan, answered, scan_nodes, is_ghost, tasks_by_id, fetch_ghost_containers,
}

abbrev is_fault {ℓ} : {A : Type ℓ} → Outcome A → Bool
is_fault (ok _) = false
is_fault (throw _) = true

abbrev found_in : SwarmNode → Outcome (List DockerContainer) → List GhostContainer
found_in node (ok found) = map (on_node (some node.id)) found
found_in node (throw _) = []

module _ (running : String → Outcome (List DockerContainer)) (local_node_id : Option String) where
  abbrev pub fails : SwarmNode → Bool
  fails node = is_fault (running node.id)

  abbrev pub found_on : SwarmNode → List GhostContainer
  found_on node = found_in node (running node.id)

  abbrev pub found_on_all : List SwarmNode → List GhostContainer
  found_on_all [] = []
  found_on_all (node ∷ nodes) = found_on node ++ found_on_all nodes

  -- The nodes whose agents are asked.
  abbrev pub asked : List SwarmNode → List SwarmNode
  asked nodes = filter (λ node. not (is_skipped local_node_id node)) nodes

  abbrev pub unless_failed : {A : Type 0} → Option SwarmNode → A → Outcome A
  unless_failed none found = ok found
  unless_failed (some node) found = throw (cannot_scan node.id)

  step :
      (node : SwarmNode) (answer : Outcome (List DockerContainer)) (later : Option SwarmNode)
      (containers behind : List GhostContainer)
      (rest : List GhostContainer → Outcome (List GhostContainer))
      → ((all : List GhostContainer) → rest all ≡ unless_failed later (all ++ behind))
      → (answered node.id answer >>= λ found.
          rest (containers ++ map (on_node (some node.id)) found))
        ≡ unless_failed
            (if is_fault answer then some node else later)
            (containers ++ (found_in node answer ++ behind))
  step node (ok found) later containers behind rest h =
      h (containers ++ map (on_node (some node.id)) found)
      ∙ ap (unless_failed later) (append_assoc containers _ behind)
  step node (throw e) later containers behind rest h = refl

  scan_nodes-found :
      (nodes : List SwarmNode) (containers : List GhostContainer)
      → scan_nodes running local_node_id nodes containers
        ≡ unless_failed (find fails (asked nodes)) (containers ++ found_on_all (asked nodes))
  unfolding scan_nodes
  scan_nodes-found [] containers = ap ok (sym (append-nil containers))
  scan_nodes-found (node ∷ nodes) containers = elim (Bool-cases (is_skipped local_node_id node)) [
    | inl e ↦ rw e (scan_nodes-found nodes containers)
    | inr e ↦ rw e (
        step node (running node.id) (find fails (asked nodes)) containers
          (found_on_all (asked nodes)) (scan_nodes running local_node_id nodes)
          (scan_nodes-found nodes))
  ]

  -- The containers that are found on the node at hand and on the nodes that are asked, those neither
  -- local nor down, are reported if they are ghosts by the tasks; but if an agent that is asked fails,
  -- the scan fails, and names the first node whose agent does.
  pub fetch_ghost_containers-found :
      (local_containers : List DockerContainer) (tasks : List SwarmTask) (nodes : List SwarmNode)
      → fetch_ghost_containers running local_node_id local_containers tasks nodes
        ≡ unless_failed (find fails (asked nodes)) (
            filter
              (λ found. is_ghost (tasks_by_id tasks []) found.container)
              (map (on_node local_node_id) local_containers ++ found_on_all (asked nodes)))
  unfolding fetch_ghost_containers
  fetch_ghost_containers-found local_containers tasks nodes =
      ap (λ o. o >>= λ containers. ok (kept containers))
        (scan_nodes-found nodes (map (on_node local_node_id) local_containers))
      ∙ last (find fails (asked nodes)) _
    where
      kept : List GhostContainer → List GhostContainer
      kept containers = filter (λ found. is_ghost (tasks_by_id tasks []) found.container) containers

      last :
          (failed : Option SwarmNode) (all : List GhostContainer)
          → (unless_failed failed all >>= λ containers. ok (kept containers))
            ≡ unless_failed failed (kept all)
      last none all = refl
      last (some node) all = refl

-- The task of an id that is listed last.
abbrev pub last_task : String → List SwarmTask → Option SwarmTask
last_task id [] = none
last_task id (task ∷ tasks) =
    last_task id tasks or_else (if task.id === id then some task else none)

-- Whether no running task that is the last of its id, and that a label of the container names, stands
-- for the container.
abbrev pub unclaimed : List SwarmTask → DockerContainer → Option String → Bool
unclaimed tasks container none = true
unclaimed tasks container (some id) = is_empty id || not (stands_for container (last_task id tasks))

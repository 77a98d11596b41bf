-- ===== src/AgentTerminal/Tests.antt =====
-- Runs of the agent's terminal.
use containerhub.Prelude.{
  ℕ, ◌≡◌, ◌≤◌, refl, true, false, ◌&&◌, ◌||◌, ◌+◌, arith, Option, none, some, List, [], ◌∷◌, length,
  if◌then◌else◌,
}
use containerhub.AgentTerminal.{
  Size, Event, Inspection, after, is_target, message, inspected, exec_created, stream_started,
  resized, stream_data, idle_timer, socket_closed, close_timer_fired, max_buffered_bytes,
}
use containerhub.Prelude.Dict.{lookup}
use containerhub.AgentTerminal.Sound.{closed_once, buffer_bounds}
use containerhub.AgentTerminal.Checked.{runs_checked}

abbrev sized : List ℕ → Option Size
sized (columns ∷ rows ∷ []) = some (record { columns = columns; rows = rows })
sized _ = none

abbrev found : Inspection
found = record {
  running = true;
  labels = some (("com.docker.swarm.task.id", "t1") ∷ ("com.docker.swarm.node.id", "n1") ∷ []);
}

abbrev other : Inspection
other = record { running = true; labels = some (("com.docker.swarm.task.id", "t2") ∷ []) }

-- The latest event comes first.
abbrev session : List Event
session =
    idle_timer
    ∷ resized true
    ∷ message (100 ∷ 40 ∷ []) false
    ∷ message (80 ∷ 24 ∷ []) false
    ∷ stream_data (36 ∷ []) true
    ∷ message (108 ∷ 115 ∷ []) true
    ∷ stream_started
    ∷ exec_created
    ∷ inspected found
    ∷ []

session_runs : (after sized 30 "t1" "n1" session).input ≡ 108 ∷ 115 ∷ []
unfolding after lookup
session_runs = refl

session_sizes : length (after sized 30 "t1" "n1" session).resizes ≡ 2
unfolding after lookup
session_sizes = refl

session_ends : (after sized 30 "t1" "n1" session).closes ≡ 1000 ∷ []
unfolding after lookup
session_ends = refl

-- The socket closes while the exec is made: the stream that comes later is destroyed.
late_stream :
    (after sized 30 "t1" "n1"
      (stream_started ∷ socket_closed ∷ exec_created ∷ inspected found ∷ [])).destroyed
    ≡ 1
unfolding after lookup
late_stream = refl

closed_once_example :
    let t = after sized 30 "t1" "n1" session in
    (length t.closes ≡ (if t.closed then 1 else 0))
    × (t.opened ≡ (if t.stream then 1 else 0))
    × (t.destroyed ≡ (if t.stream && t.closed then 1 else 0))
    × (((t.idle || t.session || t.start_up) && t.closed) ≡ false)
    × ((t.start_up && t.stream) ≡ false)
    × (t.terminated + (if t.close_timer then 1 else 0) ≤ (if t.closed then 1 else 0))
closed_once_example = closed_once sized 30 "t1" "n1" session

buffer_bounds_example :
    let t = after sized 30 "t1" "n1" session in
    (t.unwritten ≤ max_buffered_bytes) × (t.unsent ≤ max_buffered_bytes)
buffer_bounds_example = buffer_bounds sized 30 "t1" "n1" session (omega arith)

runs_checked_example :
    let t = after sized 30 "t1" "n1" (exec_created ∷ inspected other ∷ []) in
    (t.exec ≡ false) × (t.stream ≡ false) × (t.input ≡ []) × (t.output ≡ []) × t.resizes ≡ []
unfolding is_target lookup
runs_checked_example = runs_checked sized 30 "t1" "n1" (exec_created ∷ inspected other ∷ []) refl

-- A peer that never acknowledges the close frame is cut off.
cut_off : (after sized 30 "t1" "n1" (close_timer_fired ∷ session)).terminated ≡ 1
unfolding after lookup
cut_off = refl

-- An acknowledgement ends the timer.
acknowledged :
    (after sized 30 "t1" "n1" (close_timer_fired ∷ socket_closed ∷ session)).terminated ≡ 0
unfolding after lookup
acknowledged = refl

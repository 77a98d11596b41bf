-- ===== src/AgentTerminal/Sound.antt =====
-- terminalRoutes.ts of the agent: what stays true of a terminal, whatever events reach it.
use containerhub.Prelude.{
  ℕ, ◌+◌, ◌-◌, ◌≤◌, ◌≡◌, ◌⊎◌, Bool, true, false, ◌&&◌, ◌||◌, not, Option, none, some, List, [], ◌∷◌,
  length, if◌then◌else◌, arith, by_test, ltb,
}
use Prim.Native.String.{String}
use containerhub.AgentTerminal.{
  Size, Terminal, Event, connected, close, next_resize, queue_resize, pass_input, take_message,
  take_open_message, reset_idle, socket_gone, terminate, socket_closed, close_timer_fired, handle,
  after, max_buffered_bytes, settled, message,
}

-- How many streams are open.
abbrev pub live : Terminal → ℕ
live t = if t.stream && not t.closed then 1 else 0

record IsSound (ready_bytes : ℕ) (t : Terminal) : Type 0 where
  pub closed_once : length t.closes ≡ (if t.closed then 1 else 0)
  pub streams : t.opened ≡ t.destroyed + live t
  pub one_stream : t.opened ≡ (if t.stream then 1 else 0)
  pub setting_up : (t.stream ≡ false) ⊎ (t.phase ≡ settled)
  pub no_timers : ((t.idle || t.session || t.start_up) && t.closed) ≡ false
  pub starting_up : (t.start_up && t.stream) ≡ false
  pub closing : t.terminated + (if t.close_timer then 1 else 0) ≤ (if t.closed then 1 else 0)
  pub unwritten_bound : t.unwritten ≤ max_buffered_bytes
  pub unsent_bound : t.unsent ≤ max_buffered_bytes + (ready_bytes - max_buffered_bytes)
  pub unsent_stream : (t.stream ≡ true) ⊎ (t.unsent ≡ 0)

module _ (ready_bytes : ℕ) where
  connected-IsSound : IsSound ready_bytes connected
  connected-IsSound = ground arith

  close-IsSound :
      (code : ℕ) (t : Terminal) → IsSound ready_bytes t → IsSound ready_bytes (close code t)
  unfolding close
  close-IsSound code t s = ground arith

  socket_gone-IsSound : (t : Terminal) → IsSound ready_bytes t → IsSound ready_bytes (socket_gone t)
  unfolding socket_gone
  socket_gone-IsSound t s = ground (arith, close-IsSound 1000 t s)

  terminate-IsSound : (t : Terminal) → IsSound ready_bytes t → IsSound ready_bytes (terminate t)
  unfolding terminate
  terminate-IsSound t s = ground arith

  next_resize-IsSound : (t : Terminal) → IsSound ready_bytes t → IsSound ready_bytes (next_resize t)
  unfolding next_resize
  next_resize-IsSound t s = ground arith

  queue_resize-IsSound :
      (size : Option Size) (t : Terminal)
      → IsSound ready_bytes t
      → IsSound ready_bytes (queue_resize size t)
  queue_resize-IsSound none t s = close-IsSound 1008 t s
  queue_resize-IsSound (some size) t s =
      ground (arith, next_resize-IsSound (record t { pending_size = some size }))

  pass_input-IsSound :
      (payload : List ℕ) (t : Terminal)
      → IsSound ready_bytes t
      → IsSound ready_bytes (pass_input payload t)
  unfolding pass_input
  pass_input-IsSound payload t s = ground (arith, close-IsSound 1009 t s)

module _ (control_size : List ℕ → Option Size) (ready_bytes : ℕ) (task_id node_id : String) where
  take_open_message-IsSound :
      (payload : List ℕ) (is_binary : Bool) (t : Terminal)
      → IsSound ready_bytes t
      → IsSound ready_bytes
          (take_open_message control_size ready_bytes task_id node_id payload is_binary t)
  unfolding take_open_message
  take_open_message-IsSound payload is_binary t s =
      let P = IsSound ready_bytes in
      let refused = close-IsSound ready_bytes 1008 t s in
      by_test P (not t.stream || not t.exec) (close 1008 t) _ refused λ _.
        by_test P is_binary (pass_input payload t) _ (pass_input-IsSound ready_bytes payload t s)
          λ _.
            by_test P (ltb 1024 (length payload)) (close 1008 t) _ refused
              λ _. queue_resize-IsSound ready_bytes (control_size payload) t s

  reset_idle-IsSound :
      (t : Terminal) → t.closed ≡ false → IsSound ready_bytes t → IsSound ready_bytes (reset_idle t)
  unfolding reset_idle
  reset_idle-IsSound t h s = ground arith

  take_message-IsSound :
      (payload : List ℕ) (is_binary : Bool) (t : Terminal)
      → IsSound ready_bytes t
      → IsSound ready_bytes
          (take_message control_size ready_bytes task_id node_id payload is_binary t)
  unfolding take_message
  take_message-IsSound payload is_binary t s =
      by_test (IsSound ready_bytes) t.closed t _ s
        λ h. take_open_message-IsSound payload is_binary (reset_idle t) (reset_idle-IsSound t h s)

  handle-IsSound :
      (event : Event) (t : Terminal)
      → IsSound ready_bytes t
      → IsSound ready_bytes (handle control_size ready_bytes task_id node_id event t)
  unfolding handle
  handle-IsSound (message payload is_binary) t s = take_message-IsSound payload is_binary t s
  handle-IsSound socket_closed t s = socket_gone-IsSound ready_bytes t s
  handle-IsSound close_timer_fired t s = terminate-IsSound ready_bytes t s
  handle-IsSound _ t s = ground arith

  after-IsSound :
      (events : List Event)
      → IsSound ready_bytes (after control_size ready_bytes task_id node_id events)
  unfolding after
  after-IsSound [] = connected-IsSound ready_bytes
  after-IsSound (event ∷ events) =
      handle-IsSound event (after control_size ready_bytes task_id node_id events)
        (after-IsSound events)

-- Whatever the socket, Docker and the timers do, in any order: the socket is closed exactly once, if
-- the terminal has been closed, and never before; at most one stream is opened; it is destroyed
-- exactly once, when the terminal is closed; the idle timer, the session timer and the timer of the
-- start do not run any more when it is; the last of them does not run when the stream is there; and
-- the timer of the close runs, or has ended the socket, at most once, and only when it is closed.
pub closed_once :
    (control_size : List ℕ → Option Size) (ready_bytes : ℕ) (task_id node_id : String)
    (events : List Event)
    → let t = after control_size ready_bytes task_id node_id events in
      (length t.closes ≡ (if t.closed then 1 else 0))
      × (t.opened ≡ (if t.stream then 1 else 0))
      × (t.destroyed ≡ (if t.stream && t.closed then 1 else 0))
      × (((t.idle || t.session || t.start_up) && t.closed) ≡ false)
      × ((t.start_up && t.stream) ≡ false)
      × (t.terminated + (if t.close_timer then 1 else 0) ≤ (if t.closed then 1 else 0))
closed_once control_size ready_bytes task_id node_id events =
    let s = after-IsSound control_size ready_bytes task_id node_id events in
    (s.closed_once, s.one_stream, ground arith, s.no_timers, s.starting_up, s.closing)

-- Whatever happens, what waits for the shell and what waits for the socket stay at most a mebibyte
-- each, if the message that says that the terminal is ready is not longer.
pub buffer_bounds :
    (control_size : List ℕ → Option Size) (ready_bytes : ℕ) (task_id node_id : String)
    (events : List Event)
    → ready_bytes ≤ max_buffered_bytes
    → let t = after control_size ready_bytes task_id node_id events in
      (t.unwritten ≤ max_buffered_bytes) × (t.unsent ≤ max_buffered_bytes)
buffer_bounds control_size ready_bytes task_id node_id events h =
    let s = after-IsSound control_size ready_bytes task_id node_id events in
    (s.unwritten_bound, omega (arith, s.unsent_bound))

-- ===== src/AgentTerminal/Checked.antt =====
-- terminalRoutes.ts of the agent: a shell runs only in a container that was found to be the task's.
use containerhub.Prelude.{
  ℕ, ◌≡◌, ◌⊎◌, Bool, true, false, ◌&&◌, ◌||◌, not, Option, none, some, List, [], ◌∷◌, length, ltb,
  if◌then◌else◌, arith, by_test,
}
use Prim.Native.String.{String}
use containerhub.AgentTerminal.{
  Size, Terminal, Event, close, next_resize, queue_resize, is_target, pass_input, take_message,
  take_open_message, reset_idle, socket_gone, socket_closed, handle, after, inspecting, creating,
  settled, message, inspected,
}

-- The only event that gives a right is an inspection, and it gives it by its test.
abbrev pub approves : (task_id node_id : String) → Event → Bool
approves task_id node_id (inspected i) = is_target task_id node_id i
approves task_id node_id _ = false

abbrev pub inspected_target : (task_id node_id : String) → List Event → Bool
inspected_target task_id node_id [] = false
inspected_target task_id node_id (event ∷ events) =
    approves task_id node_id event || inspected_target task_id node_id events

record IsChecked (checked : Bool) (t : Terminal) : Type 0 where
  pub exec_checked : (t.exec && not checked) ≡ false
  pub stream_exec : (t.stream && not t.exec) ≡ false
  pub creating_checked : (t.phase ≡ inspecting) ⊎ ((t.phase ≡ settled) ⊎ (checked ≡ true))
  pub starting_exec :
      (t.exec ≡ true) ⊎ ((t.phase ≡ inspecting) ⊎ ((t.phase ≡ creating) ⊎ (t.phase ≡ settled)))
  pub output_stream :
      (t.stream ≡ true)
      ⊎ ((t.input ≡ [])
          × (t.output ≡ [])
          × (t.resizes ≡ [])
          × (t.pending_size ≡ none)
          × (t.resizing ≡ false))

module _ (checked : Bool) where
  close-IsChecked :
      (code : ℕ) (t : Terminal) → IsChecked checked t → IsChecked checked (close code t)
  unfolding close
  close-IsChecked code t s = ground arith

  next_resize-IsChecked :
      (t : Terminal) → t.stream ≡ true → IsChecked checked t → IsChecked checked (next_resize t)
  unfolding next_resize
  next_resize-IsChecked t h s = ground arith

  queue_resize-IsChecked :
      (size : Option Size) (t : Terminal)
      → t.stream ≡ true
      → IsChecked checked t
      → IsChecked checked (queue_resize size t)
  queue_resize-IsChecked none t h s = close-IsChecked 1008 t s
  queue_resize-IsChecked (some size) t h s =
      ground (arith, next_resize-IsChecked (record t { pending_size = some size }) h)

  pass_input-IsChecked :
      (payload : List ℕ) (t : Terminal)
      → t.stream ≡ true
      → IsChecked checked t
      → IsChecked checked (pass_input payload t)
  unfolding pass_input
  pass_input-IsChecked payload t h s = ground arith

reset_idle-IsChecked :
    (checked : Bool) (t : Terminal) → IsChecked checked t → IsChecked checked (reset_idle t)
unfolding reset_idle
reset_idle-IsChecked checked t s = ground arith

socket_gone-IsChecked :
    (checked : Bool) (t : Terminal) → IsChecked checked t → IsChecked checked (socket_gone t)
unfolding socket_gone
socket_gone-IsChecked checked t s = ground (arith, close-IsChecked checked 1000 t s)

has_stream : (a b : Bool) → (not a || not b) ≡ false → a ≡ true
has_stream a b h = ground arith

module _ (control_size : List ℕ → Option Size) (ready_bytes : ℕ) (task_id node_id : String) where
  take_open_message-IsChecked :
      (checked : Bool) (payload : List ℕ) (is_binary : Bool) (t : Terminal)
      → IsChecked checked t
      → IsChecked checked
          (take_open_message control_size ready_bytes task_id node_id payload is_binary t)
  unfolding take_open_message
  take_open_message-IsChecked checked payload is_binary t s =
      let P = IsChecked checked in
      let refused = close-IsChecked checked 1008 t s in
      by_test P (not t.stream || not t.exec) (close 1008 t) _ refused λ ready.
        let h = has_stream t.stream t.exec ready in
        elim is_binary
          as (λ b. P (
            if b
            then pass_input payload t
            else if ltb 1024 (length payload)
            then close 1008 t
            else queue_resize (control_size payload) t)) [
              | true ↦ pass_input-IsChecked checked payload t h s
              | false ↦
                  by_test P (ltb 1024 (length payload)) (close 1008 t) _ refused
                    λ _. queue_resize-IsChecked checked (control_size payload) t h s
            ]

  take_message-IsChecked :
      (checked : Bool) (payload : List ℕ) (is_binary : Bool) (t : Terminal)
      → IsChecked checked t
      → IsChecked checked
          (take_message control_size ready_bytes task_id node_id payload is_binary t)
  unfolding take_message
  take_message-IsChecked checked payload is_binary t s =
      let later =
        take_open_message-IsChecked checked payload is_binary (reset_idle t)
          (reset_idle-IsChecked checked t s) in
      by_test (IsChecked checked) t.closed t _ s (λ _. later)

  handle-IsChecked :
      (checked : Bool) (event : Event) (t : Terminal)
      → IsChecked checked t
      → IsChecked
          (approves task_id node_id event || checked)
          (handle control_size ready_bytes task_id node_id event t)
  unfolding handle
  handle-IsChecked checked (message payload is_binary) t s =
      take_message-IsChecked checked payload is_binary t s
  handle-IsChecked checked (inspected i) t s = ground arith
  handle-IsChecked checked socket_closed t s = socket_gone-IsChecked checked t s
  handle-IsChecked checked _ t s = ground arith

  after-IsChecked :
      (events : List Event)
      → IsChecked
          (inspected_target task_id node_id events)
          (after control_size ready_bytes task_id node_id events)
  unfolding after
  after-IsChecked [] = ground arith
  after-IsChecked (event ∷ events) =
      handle-IsChecked (inspected_target task_id node_id events) event
        (after control_size ready_bytes task_id node_id events) (after-IsChecked events)

-- Whatever happens in whatever order, nothing is run in a container, no size is set and no byte goes
-- in or out, unless an inspection found the container running as the task that was asked for, on this
-- node.
pub runs_checked :
    (control_size : List ℕ → Option Size) (ready_bytes : ℕ) (task_id node_id : String)
    (events : List Event)
    → inspected_target task_id node_id events ≡ false
    → let t = after control_size ready_bytes task_id node_id events in
      (t.exec ≡ false) × (t.stream ≡ false) × (t.input ≡ []) × (t.output ≡ []) × t.resizes ≡ []
runs_checked control_size ready_bytes task_id node_id events h =
    let s = after-IsChecked control_size ready_bytes task_id node_id events in ground arith

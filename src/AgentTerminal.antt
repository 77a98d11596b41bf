-- ===== src/AgentTerminal.antt =====
-- packages/containerhub-agent/src/terminalRoutes.ts: a terminal on an agent, from the socket's upgrade
-- to its end, as a state that events change. What the peer, Docker and the timers do are the events;
-- an event says what the code reads of them. Bytes are numbers.
pub mod Sound
pub mod Control
pub mod Checked
mod Tests
use Prim.Native.String.{String, [], ◌∷◌}
use Prim.Native.Char.{code}
use containerhub.Prelude.{
  ℕ, zero, suc, ◌+◌, ◌*◌, ◌-◌, Bool, true, false, ◌&&◌, ◌||◌, not, Option, none, some, List, [],
  ◌∷◌, ◌++◌, length, if◌then◌else◌, ltb, leb, ◌==◌, ◌===◌, ◌otherwise◌,
}
use containerhub.Prelude.Dict.{lookup}

abbrev pub max_input_bytes : ℕ
max_input_bytes = 64 * 1024

abbrev pub max_buffered_bytes : ℕ
max_buffered_bytes = 1024 * 1024

pub record Size : Type 0 where
  pub columns : ℕ
  pub rows : ℕ

-- `TerminalTarget`, with the text that the address names as a shell.
pub record TerminalTarget : Type 0 where
  pub container_id : String
  pub node_id : String
  pub task_id : Option String
  pub shell : String

abbrev is_id_character : ℕ → Bool
is_id_character c =
    (leb b'a' c && leb c b'z')
    || (leb b'A' c && leb c b'Z')
    || (leb b'0' c && leb c b'9')
    || c == b'_'
    || c == b'-'

abbrev is_hex_character : ℕ → Bool
is_hex_character c = (leb b'a' c && leb c b'f') || (leb b'0' c && leb c b'9')

-- How many characters a text has, if all pass a test.
unfoldable pub characters : (ℕ → Bool) → String → Option ℕ
characters test [] = some 0
characters test (c ∷ s) = elim (characters test s) [
  | none ↦ none
  | some n ↦ if test (code c) then some (suc n) else none
]

-- `/^[a-zA-Z0-9_-]{1,128}$/`
unfoldable pub is_task_id : String → Bool
unfolding characters
is_task_id s = elim (characters is_id_character s) [ none ↦ false | some n ↦ leb 1 n && leb n 128 ]

-- `/^[a-f0-9]{64}$/`
unfoldable pub is_container_id : String → Bool
unfolding characters
is_container_id s = elim (characters is_hex_character s) [ none ↦ false | some n ↦ n == 64 ]

-- The `preValidation`: the status that the request is refused with, if it is.
unfoldable pub refusal : (secure authorized : Bool) → (node_id : String) → TerminalTarget → Option ℕ
unfolding is_task_id is_container_id
refusal secure authorized node_id target =
    if secure && not authorized
    then some 401
    else if not (target.node_id === node_id)
        || not (is_task_id (target.task_id otherwise ""))
        || not (is_container_id target.container_id)
        || (not (target.shell === "sh") && not (target.shell === "bash"))
    then some 400
    else none

-- What `container.inspect()` says.
pub record Inspection : Type 0 where
  pub running : Bool
  pub labels : Option (List (String × String))

abbrev is_label : String → Option String → Bool
is_label value none = false
is_label value (some s) = s === value

-- The container runs, and is the task's on this node.
unfoldable pub is_target : String → String → Inspection → Bool
is_target task_id node_id inspection =
    let labels = inspection.labels otherwise [] in
    inspection.running
    && is_label task_id (lookup "com.docker.swarm.task.id" labels)
    && is_label node_id (lookup "com.docker.swarm.node.id" labels)

-- How far the setup has come: the call that it waits for.
pub data Phase : Type 0 where
  inspecting creating starting settled : Phase

-- `opened` and `destroyed` count streams, `closes` holds the codes that the socket was closed with.
-- `unwritten` is `stream.writableLength`, and `unsent` `socket.bufferedAmount`; `input` and `output`
-- are the bytes that were passed on. The four timers say whether they run; `terminated` counts the
-- ends of a socket whose peer has not acknowledged the close frame.
pub record Terminal : Type 0 where
  pub phase : Phase
  pub exec : Bool
  pub stream : Bool
  pub closed : Bool
  pub idle : Bool
  pub session : Bool
  pub start_up : Bool
  pub close_timer : Bool
  pub terminated : ℕ
  pub resizing : Bool
  pub pending_size : Option Size
  pub resizes : List Size
  pub opened : ℕ
  pub destroyed : ℕ
  pub closes : List ℕ
  pub unwritten : ℕ
  pub unsent : ℕ
  pub input : List ℕ
  pub output : List ℕ

abbrev pub connected : Terminal
connected = record {
  phase = inspecting;
  exec = false;
  stream = false;
  closed = false;
  idle = true;
  session = true;
  start_up = true;
  close_timer = false;
  terminated = 0;
  resizing = false;
  pending_size = none;
  resizes = [];
  opened = 0;
  destroyed = 0;
  closes = [];
  unwritten = 0;
  unsent = 0;
  input = [];
  output = [];
}

pub data Event : Type 0 where
  message : (payload : List ℕ) → (is_binary : Bool) → Event
  inspected : Inspection → Event
  exec_created : Event
  stream_started : Event
  setup_failed : Event
  resized : (success : Bool) → Event
  stream_data : (chunk : List ℕ) → (socket_open : Bool) → Event
  chunk_sent : (bytes : ℕ) → (success : Bool) → Event
  drained : (bytes : ℕ) → Event
  stream_error stream_ended : Event
  socket_closed socket_error : Event
  idle_timer session_timer start_timer close_timer_fired : Event

-- `close(code)`
unfoldable pub close : ℕ → Terminal → Terminal
close code t = if t.closed then t else record t {
  closed = true;
  idle = false;
  session = false;
  start_up = false;
  destroyed = if t.stream then t.destroyed + 1 else t.destroyed;
  closes = code ∷ t.closes;
  close_timer = true;
}

-- The listener that `close` leaves on the socket ends its timer. A socket whose own end makes the
-- terminal close gets it too late: the event has passed, and the timer is left to fire.
unfoldable pub socket_gone : Terminal → Terminal
unfolding close
socket_gone t = if t.closed then record t { close_timer = false } else close 1000 t

-- A timer that has fired runs no more.
unfoldable pub terminate : Terminal → Terminal
terminate t =
    if t.close_timer then record t { close_timer = false; terminated = t.terminated + 1 } else t

unfoldable pub reset_idle : Terminal → Terminal
reset_idle t = record t { idle = true }

-- The loop over sizes, up to its next wait.
unfoldable pub next_resize : Terminal → Terminal
next_resize t = elim t.pending_size [
  | none ↦ record t { resizing = false }
  | some size ↦
      if t.closed
      then record t { resizing = false }
      else record t { resizing = true; pending_size = none; resizes = t.resizes ++ size ∷ [] }
]

abbrev queue_resize : Option Size → Terminal → Terminal
queue_resize none t = close 1008 t
queue_resize (some size) t =
    let queued = record t { pending_size = some size } in
    if t.resizing then queued else next_resize queued

-- A binary message: input for the shell.
unfoldable pub pass_input : List ℕ → Terminal → Terminal
unfolding close
pass_input payload t =
    if ltb max_input_bytes (length payload) || ltb max_buffered_bytes (t.unwritten + length payload)
    then close 1009 t
    else record t { unwritten = t.unwritten + length payload; input = t.input ++ payload }

-- `control_size` is the size that a text asks for: what is no resize, or out of range, is `none`;
-- `ready_bytes` is the length of the message that says that the terminal is ready.
module _ (control_size : List ℕ → Option Size) (ready_bytes : ℕ) (task_id node_id : String) where
  unfoldable pub take_open_message : List ℕ → Bool → Terminal → Terminal
  unfolding close pass_input next_resize
  take_open_message payload is_binary t =
      if not t.stream || not t.exec
      then close 1008 t
      else if is_binary
      then pass_input payload t
      else if ltb 1024 (length payload)
      then close 1008 t
      else queue_resize (control_size payload) t

  unfoldable pub take_message : List ℕ → Bool → Terminal → Terminal
  unfolding take_open_message reset_idle
  take_message payload is_binary t =
      if t.closed then t else take_open_message payload is_binary (reset_idle t)

  unfoldable pub take_inspection : Phase → Inspection → Terminal → Terminal
  unfolding close is_target
  take_inspection inspecting inspection t =
      if t.closed
      then record t { phase = settled }
      else if is_target task_id node_id inspection
      then record t { phase = creating }
      else close 1008 (record t { phase = settled })
  take_inspection _ inspection t = t

  unfoldable pub take_exec : Phase → Terminal → Terminal
  take_exec creating t = record t { exec = true; phase = if t.closed then settled else starting }
  take_exec _ t = t

  unfoldable pub take_stream : Phase → Terminal → Terminal
  take_stream starting t =
      let started = record t { stream = true; opened = t.opened + 1; phase = settled } in
      if t.closed
      then record started { destroyed = t.destroyed + 1 }
      else record started { start_up = false; unsent = t.unsent + ready_bytes }
  take_stream _ t = t

  unfoldable pub fail_setup : Phase → Terminal → Terminal
  unfolding close
  fail_setup settled t = t
  fail_setup _ t = close 1011 (record t { phase = settled })

  unfoldable pub take_data : List ℕ → Bool → Terminal → Terminal
  unfolding close
  take_data chunk socket_open t =
      if t.closed || not socket_open
      then close 1000 t
      else if ltb max_buffered_bytes (t.unsent + length chunk)
      then close 1009 t
      else record t { unsent = t.unsent + length chunk; output = t.output ++ chunk }

  unfoldable pub take_resized : Bool → Terminal → Terminal
  unfolding next_resize close
  take_resized success t =
      if not t.resizing
      then t
      else if success
      then next_resize t
      else record (close 1011 t) { resizing = false }

  unfoldable pub handle : Event → Terminal → Terminal
  unfolding take_message take_inspection take_exec take_stream fail_setup take_data take_resized
      close socket_gone terminate
  handle (message payload is_binary) t = take_message payload is_binary t
  handle (inspected inspection) t = take_inspection t.phase inspection t
  handle exec_created t = take_exec t.phase t
  handle stream_started t = take_stream t.phase t
  handle setup_failed t = fail_setup t.phase t
  handle (resized success) t = take_resized success t
  handle (stream_data chunk socket_open) t = if t.stream then take_data chunk socket_open t else t
  handle (chunk_sent bytes success) t =
      let sent = record t { unsent = t.unsent - bytes } in if success then sent else close 1011 sent
  handle (drained bytes) t = record t { unwritten = t.unwritten - bytes }
  handle stream_error t = if t.stream then close 1011 t else t
  handle stream_ended t = if t.stream then close 1000 t else t
  handle socket_closed t = socket_gone t
  handle socket_error t = close 1011 t
  handle idle_timer t = if t.idle then close 1000 t else t
  handle session_timer t = if t.session then close 1000 t else t
  handle start_timer t = if t.start_up then close 1011 t else t
  handle close_timer_fired t = terminate t

  -- The state after events, the latest of which comes first.
  unfoldable pub after : List Event → Terminal
  unfolding handle
  after [] = connected
  after (event ∷ events) = handle event (after events)

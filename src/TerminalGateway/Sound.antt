-- ===== src/TerminalGateway/Sound.antt =====
-- TerminalRoutes.ts: what stays true of a user's terminal, whatever events reach it.
use containerhub.Prelude.{
  ℕ, ◌+◌, ◌≤◌, ◌≡◌, refl, ap, Bool, true, false, ◌&&◌, not, Option, some, List, [], ◌∷◌, ◌++◌,
  length, if◌then◌else◌, arith, length-append,
}
use containerhub.AgentTerminal.{Size}
use containerhub.TerminalGateway.{
  Gateway, Input, Stage, Event, accepted, keep_input, close_terminal, next_resize, queue_resize,
  write_input, receive_input, receive_all, open_gateway, during_opening, take_chunk, while_open,
  after_refusal, dispatch, after, opening, open_terminal, refused, message, terminal_opened,
  max_input_bytes, max_buffered_output_bytes,
}

-- The bytes of messages.
abbrev pub bytes : List Input → ℕ
bytes [] = 0
bytes ((payload, is_binary) ∷ inputs) = length payload + bytes inputs

bytes-append :
    (xs : List Input) (payload : List ℕ) (b : Bool)
    → bytes (xs ++ (payload, b) ∷ []) ≡ bytes xs + length payload
bytes-append [] payload b = omega arith
bytes-append ((p, c) ∷ xs) payload b = omega (arith, bytes-append xs payload b)

abbrev is_open : Stage → Bool
is_open open_terminal = true
is_open _ = false

-- How many terminals are open.
abbrev pub live : Gateway → ℕ
live g = if is_open g.stage && not g.closed then 1 else 0

abbrev is_opening : Stage → Bool
is_opening opening = true
is_opening _ = false

record IsSound (g : Gateway) : Type 0 where
  pub terminals : g.opened ≡ g.terminal_closes + live g
  pub one_terminal : g.opened ≤ (if is_opening g.stage then 0 else 1)
  pub stays_open : (g.closed && not (is_open g.stage)) ≡ false
  pub no_timers : (g.timers && g.closed) ≡ false
  pub pending_count : length g.pending ≤ 64
  pub pending_sum : bytes g.pending ≤ g.pending_bytes
  pub pending_bound : bytes g.pending ≤ max_input_bytes
  pub unwritten_bound : g.unwritten ≤ max_buffered_output_bytes
  pub unsent_bound : g.unsent ≤ max_buffered_output_bytes

accepted-IsSound : IsSound accepted
accepted-IsSound = ground arith

keep_input-IsSound : (input : Input) (g : Gateway) → IsSound g → IsSound (keep_input input g)
unfolding keep_input
keep_input-IsSound (payload, is_binary) g s = ground (
  arith,
  bytes-append g.pending payload is_binary,
  length-append {0} g.pending ((payload, is_binary) ∷ []),
)

-- A sound state whose terminal has been opened.
abbrev IsLive : Gateway → Type 0
IsLive g = IsSound g × (is_open g.stage ≡ true)

module _ (g : Gateway) (s : IsLive g) where
  close_terminal-IsLive : IsLive (close_terminal g)
  unfolding close_terminal
  close_terminal-IsLive = ground arith

  next_resize-IsLive : IsLive (next_resize g)
  unfolding next_resize
  next_resize-IsLive = ground arith

  take_chunk-IsLive : (sent : List ℕ) → IsLive (take_chunk sent g)
  unfolding take_chunk
  take_chunk-IsLive sent = ground (arith, close_terminal-IsLive)

  write_input-IsLive : (payload : List ℕ) → IsLive (write_input payload g)
  unfolding write_input
  write_input-IsLive payload = ground (arith, close_terminal-IsLive)

queue_resize-IsLive : (size : Size) (g : Gateway) → IsLive g → IsLive (queue_resize size g)
unfolding queue_resize
queue_resize-IsLive size g s =
    ground (arith, next_resize-IsLive (record g { pending_resize = some size }))

module _ (parse : List ℕ → Option Size) where
  receive_input-IsLive :
      (input : Input) (g : Gateway) → IsLive g → IsLive (receive_input parse input g)
  unfolding receive_input
  receive_input-IsLive (payload, is_binary) g s = ground (
    arith,
    close_terminal-IsLive g s,
    write_input-IsLive g s payload,
    λ (size : Size). queue_resize-IsLive size g s,
  )

  receive_all-IsLive :
      (inputs : List Input) (g : Gateway) → IsLive g → IsLive (receive_all parse inputs g)
  unfolding receive_all
  receive_all-IsLive [] g s = s
  receive_all-IsLive (input ∷ inputs) g s =
      receive_all-IsLive inputs (receive_input parse input g) (receive_input-IsLive input g s)

  started-IsLive :
      (g : Gateway)
      → g.stage ≡ opening
      → IsSound g
      → IsLive (record g { stage = open_terminal; opened = g.opened + 1; timers = true })
  started-IsLive g h s = ground (arith, ap is_opening h, ap is_open h)

  open_gateway-IsSound :
      (g : Gateway) → g.stage ≡ opening → IsSound g → IsSound (open_gateway parse g)
  unfolding open_gateway
  open_gateway-IsSound g h s =
      let started = record g { stage = open_terminal; opened = g.opened + 1; timers = true } in
      let sound = receive_all-IsLive g.pending started (started-IsLive g h s) in
      ground (arith, ap is_opening h, ap is_open h, sound)

  while_open-IsSound : (event : Event) (g : Gateway) → IsLive g → IsSound (while_open parse event g)
  unfolding while_open
  while_open-IsSound (message input) g s = (receive_input-IsLive input g s).0
  while_open-IsSound _ g s = ground (arith, close_terminal-IsLive g s, next_resize-IsLive g s)

  during_opening-IsSound :
      (event : Event) (g : Gateway)
      → g.stage ≡ opening
      → IsSound g
      → IsSound (during_opening parse event g)
  unfolding during_opening
  during_opening-IsSound (message input) g h s = keep_input-IsSound input g s
  during_opening-IsSound terminal_opened g h s = open_gateway-IsSound g h s
  during_opening-IsSound _ g h s = ground arith

  after_refusal-IsSound :
      (event : Event) (g : Gateway) → IsSound g → IsSound (after_refusal parse event g)
  unfolding after_refusal
  after_refusal-IsSound (message input) g s = keep_input-IsSound input g s
  after_refusal-IsSound _ g s = ground arith

  dispatch-IsSound :
      (stage : Stage) (event : Event) (g : Gateway)
      → g.stage ≡ stage
      → IsSound g
      → IsSound (dispatch parse stage event g)
  unfolding dispatch
  dispatch-IsSound opening event g h s = during_opening-IsSound event g h s
  dispatch-IsSound open_terminal event g h s = while_open-IsSound event g (s, ap is_open h)
  dispatch-IsSound refused event g h s = after_refusal-IsSound event g s

  after-IsSound : (events : List Event) → IsSound (after parse events)
  unfolding after
  after-IsSound [] = accepted-IsSound
  after-IsSound (event ∷ events) =
      let g = after parse events in dispatch-IsSound g.stage event g refl (after-IsSound events)

-- Whatever the user, the shell and the timers do, in any order: at most one terminal is opened; it is
-- closed exactly once when the session is closed, or at once when the user has gone before it is
-- there; it stays open otherwise; and no timer is left when it is closed.
pub terminals_closed :
    (parse_resize : List ℕ → Option Size) (events : List Event)
    → let g = after parse_resize events in
      (g.opened ≤ 1) × (g.opened ≡ g.terminal_closes + live g) × (g.timers && g.closed) ≡ false
terminals_closed parse_resize events =
    let s = after-IsSound parse_resize events in ground (arith, s)

-- Whatever happens, at most 64 messages of together at most 64 KiB wait for the terminal, and at most
-- a mebibyte waits for the shell and for the user.
pub waiting_bounds :
    (parse_resize : List ℕ → Option Size) (events : List Event)
    → let g = after parse_resize events in
      (length g.pending ≤ 64)
      × (bytes g.pending ≤ max_input_bytes)
      × (g.unwritten ≤ max_buffered_output_bytes)
      × (g.unsent ≤ max_buffered_output_bytes)
waiting_bounds parse_resize events =
    let s = after-IsSound parse_resize events in
    (s.pending_count, s.pending_bound, s.unwritten_bound, s.unsent_bound)

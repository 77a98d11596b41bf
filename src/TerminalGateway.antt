-- ===== src/TerminalGateway.antt =====
-- packages/containerhub-back/src/modules/services/routes/TerminalRoutes.ts: the socket of a user's
-- terminal, as a state that events change, and the checks before it is opened.
pub mod Sound
pub mod Order
mod Tests
use Prim.Native.String.{String, []}
use containerhub.Prelude.{
  ℕ, ◌+◌, ◌-◌, ◌*◌, Bool, true, false, ◌&&◌, ◌||◌, not, Option, none, some, List, [], ◌∷◌, ◌++◌,
  length, map, filter, find, any, if◌then◌else◌, ltb, leb, ◌===◌, ◌otherwise◌, is_some,
}
use containerhub.Prelude.Text.{split, join, trim, non_empty, strip_prefix}
use containerhub.AgentTerminal.{Size, is_container_id}

abbrev pub max_input_bytes : ℕ
max_input_bytes = 64 * 1024

abbrev pub max_buffered_output_bytes : ℕ
max_buffered_output_bytes = 1024 * 1024

-- A header of a request: a text, or one for each time that it was sent.
pub data Header : Type 0 where
  one : String → Header
  many : List String → Header

abbrev header_text : Option Header → String
header_text none = []
header_text (some (one s)) = s
header_text (some (many parts)) = join "," parts

unfoldable pub protocol_values : Option Header → List String
unfolding split join trim
protocol_values header = filter non_empty (map trim (split b',' (header_text header)))

-- What follows `terminal.` in a protocol of the form that a ticket has.
unfoldable pub ticket_of : String → Option String
unfolding strip_prefix is_container_id
ticket_of protocol = elim (strip_prefix "terminal." protocol) [
  | none ↦ none
  | some ticket ↦ if is_container_id ticket then some ticket else none
]

abbrev first_ticket : List String → Option String
first_ticket [] = none
first_ticket (p ∷ ps) = elim (ticket_of p) [ some ticket ↦ some ticket | none ↦ first_ticket ps ]

unfoldable pub terminal_ticket : Option Header → Option String
unfolding protocol_values ticket_of
terminal_ticket header = first_ticket (protocol_values header)

-- What `new URL(text)` gives of an address.
pub record Url : Type 0 where
  pub origin : String
  pub hostname : String

abbrev first_value : Option Header → Option String
first_value none = none
first_value (some (one s)) = some s
first_value (some (many [])) = none
first_value (some (many (s ∷ _))) = some s

abbrev is_text : String → Option String → Bool
is_text value none = false
is_text value (some s) = s === value

-- `parse_url` is `none` where `new URL` throws.
unfoldable pub terminal_origin_is_allowed :
    (parse_url : String → Option Url) (configured : Option String) (production : Bool)
    → Option Header
    → Bool
terminal_origin_is_allowed parse_url configured production header =
    let origin = first_value header in
    if non_empty (configured otherwise "")
    then (elim (parse_url (configured otherwise "")) [
      | none ↦ false
      | some url ↦ is_text url.origin origin
    ])
    else if production || not (non_empty (origin otherwise ""))
    then false
    else (elim (parse_url (origin otherwise "")) [
      | none ↦ false
      | some url ↦
          url.hostname === "127.0.0.1" || url.hostname === "::1" || url.hostname === "localhost"
    ])

-- A message of the socket: its bytes, and whether it is binary.
abbrev pub Input : Type 0
Input = List ℕ × Bool

pub data Stage : Type 0 where
  opening open_terminal refused : Stage

-- `opened` and `terminal_closes` count terminals, and `socket_closes` holds the codes that the socket
-- was closed with. `written` are the bytes that were passed to the shell, `sent` those to the user.
pub record Gateway : Type 0 where
  pub stage : Stage
  pub disconnected : Bool
  pub pending : List Input
  pub pending_bytes : ℕ
  pub closed : Bool
  pub timers : Bool
  pub opened : ℕ
  pub terminal_closes : ℕ
  pub socket_closes : List ℕ
  pub unwritten : ℕ
  pub unsent : ℕ
  pub written : List ℕ
  pub sent : List ℕ
  pub in_flight : Bool
  pub pending_resize : Option Size
  pub resizes : List Size

abbrev pub accepted : Gateway
accepted = record {
  stage = opening;
  disconnected = false;
  pending = [];
  pending_bytes = 0;
  closed = false;
  timers = false;
  opened = 0;
  terminal_closes = 0;
  socket_closes = [];
  unwritten = 0;
  unsent = 0;
  written = [];
  sent = [];
  in_flight = false;
  pending_resize = none;
  resizes = [];
}

pub data Event : Type 0 where
  message : Input → Event
  terminal_opened terminal_failed : Event
  socket_ended : Event
  chunk : List ℕ → Event
  stream_ended : Event
  timer : Event
  resized : (success : Bool) → Event
  drained sent_out : ℕ → Event

-- `receiveInput` while the terminal is opened.
unfoldable pub keep_input : Input → Gateway → Gateway
keep_input (payload, is_binary) g =
    let counted = record g { pending_bytes = g.pending_bytes + length payload } in
    if ltb max_input_bytes (g.pending_bytes + length payload) || leb 64 (length g.pending)
    then record counted { disconnected = true; socket_closes = 1009 ∷ g.socket_closes }
    else if not g.disconnected
    then record counted { pending = g.pending ++ (payload, is_binary) ∷ [] }
    else counted

-- A `close()` with no code is counted as 1005.
unfoldable pub close_terminal : Gateway → Gateway
close_terminal g = if g.closed then g else record g {
  closed = true;
  timers = false;
  terminal_closes = g.terminal_closes + 1;
  socket_closes = 1005 ∷ g.socket_closes;
}

-- The loop over sizes, up to its next wait or its end.
unfoldable pub next_resize : Gateway → Gateway
next_resize g = elim g.pending_resize [
  | none ↦ record g { in_flight = false }
  | some size ↦
      if g.closed
      then record g { pending_resize = none; in_flight = false }
      else record g { pending_resize = none; in_flight = true; resizes = g.resizes ++ size ∷ [] }
]

unfoldable pub queue_resize : Size → Gateway → Gateway
unfolding next_resize
queue_resize size g =
    let queued = record g { pending_resize = some size } in
    if g.in_flight then queued else next_resize queued

unfoldable pub write_input : List ℕ → Gateway → Gateway
unfolding close_terminal
write_input payload g =
    if ltb max_input_bytes (length payload)
      || ltb max_buffered_output_bytes (g.unwritten + length payload)
    then close_terminal g
    else record g { unwritten = g.unwritten + length payload; written = g.written ++ payload }

unfoldable pub take_chunk : List ℕ → Gateway → Gateway
unfolding close_terminal
take_chunk bytes g =
    if ltb max_buffered_output_bytes (g.unsent + length bytes)
    then close_terminal g
    else record g { unsent = g.unsent + length bytes; sent = g.sent ++ bytes }

-- `parse_resize` says which size a text asks for.
module _ (parse_resize : List ℕ → Option Size) where
  -- `receiveInput` of the open terminal.
  unfoldable pub receive_input : Input → Gateway → Gateway
  unfolding write_input queue_resize close_terminal
  receive_input (payload, is_binary) g =
      if g.closed
      then g
      else if is_binary
      then write_input payload g
      else elim (parse_resize payload) [ none ↦ close_terminal g | some size ↦ queue_resize size g ]

  unfoldable pub receive_all : List Input → Gateway → Gateway
  unfolding receive_input
  receive_all [] g = g
  receive_all (input ∷ inputs) g = receive_all inputs (receive_input input g)

  -- The terminal is there: the input that waited is passed on.
  unfoldable pub open_gateway : Gateway → Gateway
  unfolding receive_all
  open_gateway g =
      if g.disconnected
      then record g {
        stage = refused;
        opened = g.opened + 1;
        terminal_closes = g.terminal_closes + 1;
      }
      else record (receive_all g.pending
          (record g { stage = open_terminal; opened = g.opened + 1; timers = true })) {
            pending = [];
          }

  unfoldable pub during_opening : Event → Gateway → Gateway
  unfolding keep_input open_gateway
  during_opening (message input) g = keep_input input g
  during_opening terminal_opened g = open_gateway g
  during_opening terminal_failed g = record g {
    stage = refused;
    socket_closes = 1011 ∷ g.socket_closes;
  }
  during_opening socket_ended g = record g { disconnected = true }
  during_opening _ g = g

  unfoldable pub while_open : Event → Gateway → Gateway
  unfolding receive_input take_chunk close_terminal next_resize
  while_open (message input) g = receive_input input g
  while_open (chunk bytes) g = take_chunk bytes g
  while_open socket_ended g = close_terminal (record g { disconnected = true })
  while_open stream_ended g = close_terminal g
  while_open timer g = if g.timers then close_terminal g else g
  while_open (resized true) g = if g.in_flight then next_resize g else g
  while_open (resized false) g =
      if g.in_flight
      then record (close_terminal g) { pending_resize = none; in_flight = false }
      else g
  while_open (drained n) g = record g { unwritten = g.unwritten - n }
  while_open (sent_out n) g = record g { unsent = g.unsent - n }
  while_open _ g = g

  -- `receiveInput` of a terminal that failed to open is still the first one.
  unfoldable pub after_refusal : Event → Gateway → Gateway
  unfolding keep_input
  after_refusal (message input) g = keep_input input g
  after_refusal socket_ended g = record g { disconnected = true }
  after_refusal _ g = g

  unfoldable pub dispatch : Stage → Event → Gateway → Gateway
  unfolding during_opening while_open after_refusal
  dispatch opening event g = during_opening event g
  dispatch open_terminal event g = while_open event g
  dispatch refused event g = after_refusal event g

  -- The state after events, the latest of which comes first.
  unfoldable pub after : List Event → Gateway
  unfolding dispatch
  after [] = accepted
  after (event ∷ events) = let g = after events in dispatch g.stage event g

-- ===== src/TerminalGateway/Tests.antt =====
-- Runs of a user's terminal.
use containerhub.Prelude.{
  ℕ, ◌+◌, ◌≡◌, ◌≤◌, refl, true, false, ◌&&◌, Option, none, some, List, [], ◌∷◌, length, arith,
}
use Prim.Native.String.{String}
use containerhub.Prelude.Text.{is_space}
use containerhub.AgentTerminal.{Size}
use containerhub.TaskInspect.{Json, text, number, object, no_field, field}
use containerhub.AgentTerminal.Control.{control_size, parse_resize}
use containerhub.TerminalGateway.{
  Url, one, many, terminal_ticket, terminal_origin_is_allowed, after, message, terminal_opened,
  socket_ended, chunk, stream_ended, max_input_bytes, max_buffered_output_bytes,
}
use containerhub.TerminalGateway.Sound.{terminals_closed, waiting_bounds, live, bytes}
use containerhub.TerminalGateway.Order.{written_in_order, sending}

abbrev ticket : String
ticket = "0123456789abcdef0123456789abcdef0123456789abcdef0123456789abcdef"

ticket_found :
    terminal_ticket
      (some (one "x, terminal.0123456789abcdef0123456789abcdef0123456789abcdef0123456789abcdef"))
    ≡ some ticket
unfolding terminal_ticket is_space
ticket_found = refl

ticket_refused : terminal_ticket (some (many ("terminal.abc" ∷ "y" ∷ []))) ≡ none
unfolding terminal_ticket is_space
ticket_refused = refl

abbrev local : String → Option Url
local s = some (record { origin = s; hostname = "localhost" })

origin_local :
    terminal_origin_is_allowed local none false (some (one "http://localhost:8080")) ≡ true
unfolding terminal_origin_is_allowed
origin_local = refl

origin_production :
    terminal_origin_is_allowed local none true (some (one "http://localhost:8080")) ≡ false
unfolding terminal_origin_is_allowed
origin_production = refl

-- A parser that knows one text.
abbrev parsed : List ℕ → Option (Json ℕ)
parsed (n ∷ []) = some (
    object (
      field "type" (text "resize")
        (field "columns" (number n) (field "rows" (number 24) no_field))))
parsed _ = none

size_80 : parse_resize parsed some (80 ∷ []) ≡ some (record { columns = 80; rows = 24 })
unfolding parse_resize
size_80 = refl

size_501 : control_size parsed some (501 ∷ []) ≡ none
unfolding control_size
size_501 = refl

no_size : List ℕ → Option Size
no_size bytes = none

gone_early : (after no_size (terminal_opened ∷ socket_ended ∷ [])).terminal_closes ≡ 1
unfolding after
gone_early = refl

ends_twice :
    (after no_size
      (socket_ended ∷ stream_ended ∷ chunk (1 ∷ []) ∷ terminal_opened ∷ [])).socket_closes
    ≡ 1005 ∷ []
unfolding after
ends_twice = refl

terminals_closed_example :
    let g = after no_size (socket_ended ∷ chunk (1 ∷ []) ∷ terminal_opened ∷ []) in
    (g.opened ≤ 1) × (g.opened ≡ g.terminal_closes + live g) × (g.timers && g.closed) ≡ false
terminals_closed_example =
    terminals_closed no_size (socket_ended ∷ chunk (1 ∷ []) ∷ terminal_opened ∷ [])

waiting_bounds_example :
    let g = after no_size (message (1 ∷ [], true) ∷ []) in
    (length g.pending ≤ 64)
    × (bytes g.pending ≤ max_input_bytes)
    × (g.unwritten ≤ max_buffered_output_bytes)
    × (g.unsent ≤ max_buffered_output_bytes)
waiting_bounds_example = waiting_bounds no_size (message (1 ∷ [], true) ∷ [])

abbrev typed : List (List ℕ)
typed = (3 ∷ []) ∷ (1 ∷ 2 ∷ []) ∷ []

written_in_order_example :
    let g = after no_size (terminal_opened ∷ sending typed) in
    (g.written ≡ 1 ∷ 2 ∷ 3 ∷ []) × (g.closed ≡ false) × g.pending ≡ []
written_in_order_example = written_in_order no_size typed (omega arith) (omega arith)

-- ===== src/TerminalGateway/Order.antt =====
-- TerminalRoutes.ts: the input that a user sends before the terminal is there.
use containerhub.Prelude.{
  ℕ, ◌+◌, ◌≤◌, ◌≡◌, refl, true, false, Option, List, [], ◌∷◌, ◌++◌, length, ltb, leb, arith,
  length-append,
}
use containerhub.AgentTerminal.{Size}
use containerhub.TerminalGateway.{
  Gateway, Input, Event, accepted, keep_input, receive_input, receive_all, write_input,
  open_gateway, during_opening, dispatch, after, open_terminal, message, terminal_opened,
  max_input_bytes,
}

-- Payloads, the latest of which comes first: their bytes in the order of sending.
abbrev pub joined : List (List ℕ) → List ℕ
joined [] = []
joined (payload ∷ payloads) = joined payloads ++ payload

abbrev pub sending : List (List ℕ) → List Event
sending [] = []
sending (payload ∷ payloads) = message (payload, true) ∷ sending payloads

abbrev waiting : List (List ℕ) → List Input
waiting [] = []
waiting (payload ∷ payloads) = waiting payloads ++ (payload, true) ∷ []

length-waiting : (ps : List (List ℕ)) → length (waiting ps) ≡ length ps
length-waiting [] = refl
length-waiting (p ∷ ps) =
    omega (arith, length-waiting ps, length-append {0} (waiting ps) ((p, true) ∷ []))

length-joined :
    (p : List ℕ) (ps : List (List ℕ)) → length (joined ps ++ p) ≡ length (joined ps) + length p
length-joined p ps = length-append {0} (joined ps) p

abbrev kept : List (List ℕ) → Gateway
kept ps = record accepted { pending = waiting ps; pending_bytes = length (joined ps) }

module _ (parse : List ℕ → Option Size) where
  after-sending :
      (ps : List (List ℕ))
      → length (joined ps) ≤ max_input_bytes
      → length ps ≤ 64
      → after parse (sending ps) ≡ kept ps
  unfolding after dispatch during_opening keep_input
  after-sending [] b n = refl
  after-sending (p ∷ ps) b n =
      let total = length-joined p ps in
      let count = length-waiting ps in
      let few : leb 64 (length (waiting ps)) ≡ false = ground (arith, count) in
      let small : ltb max_input_bytes (length (joined ps) + length p) ≡ false =
        ground (arith, total) in
      rw (after-sending ps (omega (arith, total)) (omega arith)) (rw (few, small) (rw total refl))

  receive_all-append :
      (xs : List Input) (y : Input) (g : Gateway)
      → receive_all parse (xs ++ y ∷ []) g ≡ receive_input parse y (receive_all parse xs g)
  unfolding receive_all
  receive_all-append [] y g = refl
  receive_all-append (x ∷ xs) y g = receive_all-append xs y (receive_input parse x g)

  receive_all-waiting :
      (ps : List (List ℕ)) (g : Gateway)
      → g.closed ≡ false
      → g.written ≡ []
      → g.unwritten ≡ 0
      → length (joined ps) ≤ max_input_bytes
      → receive_all parse (waiting ps) g
        ≡ record g { unwritten = length (joined ps); written = joined ps }
  unfolding receive_all receive_input write_input
  receive_all-waiting [] g c w u b = ground arith
  receive_all-waiting (p ∷ ps) g c w u b =
      let total = length-joined p ps in
      rw
        (
          receive_all-append (waiting ps) (p, true) g,
          receive_all-waiting ps g c w u (omega (arith, total)),
        )
        (ground (arith, total))

-- Binary messages that a user sends before the terminal is there, at most 64 of together at most
-- 64 KiB, all reach the shell, byte by byte in the order of sending, when the terminal has been
-- opened; the session is open then, and none of them waits any more.
pub written_in_order :
    (parse_resize : List ℕ → Option Size) (payloads : List (List ℕ))
    → length (joined payloads) ≤ max_input_bytes
    → length payloads ≤ 64
    → let g = after parse_resize (terminal_opened ∷ sending payloads) in
      (g.written ≡ joined payloads) × (g.closed ≡ false) × g.pending ≡ []
unfolding after dispatch during_opening open_gateway
written_in_order parse_resize payloads b n =
    let opened = record (kept payloads) { stage = open_terminal; opened = 1; timers = true } in
    rw
      (
        after-sending parse_resize payloads b n,
        receive_all-waiting parse_resize payloads opened refl refl refl b,
      )
      (refl, refl, refl)

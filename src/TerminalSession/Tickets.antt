-- ===== src/TerminalSession/Tickets.antt =====
-- What holds of the tickets: their lifetime, their single use, and over every run of calls.
use Prim.Native.String.{String}
use containerhub.Prelude.{
  ℕ, ◌+◌, ◌≤◌, ◌≡◌, Bool, true, false, ◌&&◌, Option, none, some, List, [], ◌∷◌, ltb, if◌then◌else◌,
  ◌===◌, arith, eq_iff, eq_refl,
}
use containerhub.Prelude.Dict.{lookup, insert, lookup-insert, lookup-delete}
use containerhub.TerminalSession.{
  TerminalSessionInput, StoredTerminalSession, terminal_ticket_lifetime_ms, Sessions,
  remove_expired, is_terminal_shell, create, consume, Call, creates, consumes, answer, after,
}

module _ (hash_ticket : String → String) where
  -- A ticket from `create` at `now` is good for 60 seconds: `consume` at `later` gives the session
  -- that was put in exactly while `later < now + 60000`. Either way the ticket is gone: a second
  -- `consume`, at any time, gives nothing.
  pub consume-create :
      (now later again : ℕ) (ticket : String) (input : TerminalSessionInput) (sessions : Sessions)
      → is_terminal_shell input.shell ≡ true
      → let created = (create hash_ticket now ticket input sessions).1 in
        let first = consume hash_ticket later ticket created in
        let second = consume hash_ticket again ticket first.1 in
        (first.0 ≡ (if ltb later (now + 60000) then some input else none)) × (second.0 ≡ none)
  unfolding create consume
  consume-create now later again ticket input sessions h =
      let key = hash_ticket ticket in
      let stored : StoredTerminalSession = record {
        input = input;
        expires_at = now + terminal_ticket_lifetime_ms;
      } in
      let kept = remove_expired now sessions in
      ground (
        arith,
        eq_refl key,
        lookup-insert key key stored kept,
        lookup-delete key key (insert key stored kept),
      )

  abbrev one_if : Bool → ℕ
  one_if true = 1
  one_if false = 0

  abbrev is_some : Option TerminalSessionInput → Bool
  is_some none = false
  is_some (some _) = true

  abbrev issues : String → Call → ℕ
  issues ticket (creates _ t input) =
      one_if (hash_ticket t === hash_ticket ticket && is_terminal_shell input.shell)
  issues ticket (consumes _ _) = 0

  abbrev redeems : String → Sessions → Call → ℕ
  redeems ticket s (creates _ _ _) = 0
  redeems ticket s (consumes now t) =
      one_if (hash_ticket t === hash_ticket ticket && is_some (consume hash_ticket now t s).0)

  -- How often a ticket was issued, and how often it was redeemed for a session.
  abbrev pub issued : String → List Call → ℕ
  issued ticket [] = 0
  issued ticket (c ∷ past) = issues ticket c + issued ticket past

  abbrev pub redeemed : String → List Call → ℕ
  redeemed ticket [] = 0
  redeemed ticket (c ∷ past) = redeems ticket (after hash_ticket past) c + redeemed ticket past

  present : String → Sessions → ℕ
  present key s = elim (lookup key s) [ none ↦ 0 | some _ ↦ 1 ]

  present-remove_expired :
      (now : ℕ) (key : String) (s : Sessions) → present key (remove_expired now s) ≤ present key s
  unfolding present remove_expired lookup
  present-remove_expired now key [] = omega arith
  present-remove_expired now key ((k, x) ∷ s) = ground (arith, present-remove_expired now key s)

  redeems_once :
      (ticket : String) (s : Sessions) (c : Call)
      → redeems ticket s c + present (hash_ticket ticket) (answer hash_ticket s c).1
        ≤ present (hash_ticket ticket) s + issues ticket c
  unfolding answer create consume present
  redeems_once ticket s (creates now t input) =
      let key = hash_ticket ticket in
      let stored : StoredTerminalSession = record {
        input = input;
        expires_at = now + terminal_ticket_lifetime_ms;
      } in
      ground (
        arith,
        lookup-insert (hash_ticket t) key stored (remove_expired now s),
        present-remove_expired now key s,
      )
  redeems_once ticket s (consumes now t) =
      let key = hash_ticket ticket in
      ground (arith, eq_iff (hash_ticket t) key, lookup-delete (hash_ticket t) key s)

  redeemed-present :
      (ticket : String) (past : List Call)
      → redeemed ticket past + present (hash_ticket ticket) (after hash_ticket past)
        ≤ issued ticket past
  unfolding after
  redeemed-present ticket [] = unfold present lookup in omega arith
  redeemed-present ticket (c ∷ past) =
      omega (arith, redeems_once ticket (after hash_ticket past) c, redeemed-present ticket past)

  -- Over any history of calls, at any times, a ticket is redeemed at most as often as it was issued:
  -- one that was issued once gives at most one session. Tickets with one hash count as one.
  pub redeemed-le-issued :
      (ticket : String) (past : List Call) → redeemed ticket past ≤ issued ticket past
  redeemed-le-issued ticket past = omega (arith, redeemed-present ticket past)

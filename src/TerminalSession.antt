-- ===== src/TerminalSession.antt =====
-- packages/containerhub-back/src/modules/services/services/TerminalSessionService.ts: the registry of
-- one-time tickets for terminal sessions. The hash of a ticket (SHA-256 in hexadecimal) is a
-- parameter; the random ticket that `create` draws and the time of a call are its arguments.
pub mod Tickets
pub mod Authenticity
mod Tests
use containerhub.Prelude.{
  ℕ, ◌+◌, String, Bool, ◌||◌, Option, none, some, List, [], ◌∷◌, filter, ltb, leb, if◌then◌else◌,
  ◌===◌, Outcome, ok, throw, error,
}
use containerhub.Prelude.Dict.{lookup, insert, delete}

pub record TerminalSessionInput : Type 0 where
  pub user_id : String
  pub task_id : String
  pub shell : String

pub record StoredTerminalSession : Type 0 where
  pub input : TerminalSessionInput
  pub expires_at : ℕ

abbrev pub terminal_ticket_lifetime_ms : ℕ
terminal_ticket_lifetime_ms = 60000

-- The map from a ticket's hash to its session.
abbrev pub Sessions : Type 0
Sessions = List (String × StoredTerminalSession)

abbrev pub is_live : ℕ → String × StoredTerminalSession → Bool
is_live now (_, session) = ltb now session.expires_at

unfoldable pub remove_expired : ℕ → Sessions → Sessions
remove_expired now = filter (is_live now)

abbrev pub is_terminal_shell : String → Bool
is_terminal_shell shell = shell === "sh" || shell === "bash"

-- The calls made on a registry, each with its time.
pub data Call : Type 0 where
  creates : ℕ → String → TerminalSessionInput → Call
  consumes : ℕ → String → Call

module _ (hash_ticket : String → String) where
  pub create : ℕ → String → TerminalSessionInput → Sessions → Outcome String × Sessions
  create now ticket input sessions =
      if is_terminal_shell input.shell
      then (
        ok ticket,
        insert (hash_ticket ticket)
            (record { input = input; expires_at = now + terminal_ticket_lifetime_ms })
            (remove_expired now sessions),
      )
      else (throw (error "shell must be sh or bash"), sessions)

  -- `consume` once the session is looked up: it is deleted, expired or not.
  pub redeem :
      ℕ → String → Sessions → Option StoredTerminalSession → Option TerminalSessionInput × Sessions
  redeem now ticket_hash sessions none = (none, sessions)
  redeem now ticket_hash sessions (some session) =
      if leb session.expires_at now
      then (none, delete ticket_hash sessions)
      else (some session.input, delete ticket_hash sessions)

  pub consume : ℕ → String → Sessions → Option TerminalSessionInput × Sessions
  unfolding redeem
  consume now ticket sessions =
      let ticket_hash = hash_ticket ticket in
      redeem now ticket_hash sessions (lookup ticket_hash sessions)

  -- What a call answers to the holder of a ticket, and the sessions behind it.
  pub answer : Sessions → Call → Option TerminalSessionInput × Sessions
  answer s (creates now ticket input) = (none, (create now ticket input s).1)
  answer s (consumes now ticket) = consume now ticket s

  -- The sessions after a history of calls, the latest call first, from an empty registry.
  pub after : List Call → Sessions
  after [] = []
  after (c ∷ past) = (answer (after past) c).1

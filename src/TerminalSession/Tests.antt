-- ===== src/TerminalSession/Tests.antt =====
-- The registry at concrete calls. The hash of these examples is the ticket itself.
use Prim.Native.String.{String}
use containerhub.Prelude.{ℕ, ◌≤◌, ◌<◌, ◌≡◌, refl, none, some, List, [], ◌∷◌, ltb, if◌then◌else◌}
use containerhub.Prelude.Dict.{lookup, insert, delete}
use containerhub.TerminalSession.{
  TerminalSessionInput, Call, creates, consumes, create, consume, answer, after, remove_expired,
}
use containerhub.TerminalSession.Tickets.{consume-create, redeemed, issued, redeemed-le-issued}
use containerhub.TerminalSession.Authenticity.{consume-Opened, AnyCall, Opened}

abbrev plain : String → String
plain ticket = ticket

abbrev shell_session : TerminalSessionInput
shell_session = record { user_id = "user"; task_id = "task"; shell = "sh" }

abbrev other_session : TerminalSessionInput
other_session = record { user_id = "eve"; task_id = "task"; shell = "bash" }

consume-create_example :
    let created = (create plain 1000 "t" shell_session []).1 in
    let first = consume plain 2000 "t" created in
    let second = consume plain 2001 "t" first.1 in
    (first.0 ≡ (if ltb 2000 61000 then some shell_session else none)) × (second.0 ≡ none)
consume-create_example = consume-create plain 1000 2000 2001 "t" shell_session [] refl

-- Two clients race for one ticket, and a second session is open; the latest call comes first.
abbrev race : List Call
race =
    consumes 3000 "t"
    ∷ consumes 2000 "t"
    ∷ creates 1500 "u" other_session
    ∷ creates 1000 "t" shell_session
    ∷ []

race_redeems_once : (redeemed plain "t" race ≡ 1) × (issued plain "t" race ≡ 1)
unfolding consume after answer create lookup insert delete remove_expired
race_redeems_once = (refl, refl)

redeemed-le-issued_example : redeemed plain "t" race ≤ issued plain "t" race
redeemed-le-issued_example = redeemed-le-issued plain "t" race

abbrev opened : List Call
opened = creates 1500 "u" other_session ∷ creates 1000 "t" shell_session ∷ []

opened_accepts : (consume plain 2000 "t" (after plain opened)).0 ≡ some shell_session
unfolding consume after answer create lookup insert delete remove_expired
opened_accepts = refl

consume-Opened_example :
    (expires : ℕ) × (2000 < expires) × AnyCall plain (Opened plain "t" shell_session expires) opened
consume-Opened_example = consume-Opened plain opened 2000 "t" shell_session opened_accepts

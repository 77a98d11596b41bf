-- ===== src/TerminalSession/Authenticity.antt =====
-- A session that is given out was put in by `create`, for the same hash, a shell and a live ticket.
use Prim.Native.String.{String}
use containerhub.Prelude.{
  ℕ, ◌+◌, ◌<◌, ◌≡◌, refl, true, some, List, [], ◌∷◌, ◌⊎◌, arith, Option-cases, Bool-cases, inl, inr,
  All, All-filter, All-imp, leb,
}
use containerhub.Prelude.Dict.{lookup, All-insert, All-delete, All-lookup}
use containerhub.TerminalSession.{
  TerminalSessionInput, StoredTerminalSession, Sessions, is_live, remove_expired, is_terminal_shell,
  redeem, create, consume, Call, creates, consumes, answer, after,
}

module _ (hash_ticket : String → String) where
  -- A call of `create` with a hash and a session, made less than 60 seconds before `later`.
  abbrev pub Opened : String → TerminalSessionInput → ℕ → Call → Type 0
  Opened key input expires (consumes _ _) = ⊥
  Opened key input expires (creates now t i) =
      (hash_ticket t ≡ key)
      × (i ≡ input)
      × (is_terminal_shell i.shell ≡ true)
      × (expires ≡ now + 60000)

  abbrev pub AnyCall : (Call → Type 0) → List Call → Type 0
  AnyCall P [] = ⊥
  AnyCall P (c ∷ past) = P c ⊎ AnyCall P past

  abbrev FromHistory : List Call → String × StoredTerminalSession → Type 0
  FromHistory past (key, stored) = AnyCall (Opened key stored.input stored.expires_at) past

  later_history :
      (c : Call) (past : List Call) (e : String × StoredTerminalSession)
      → FromHistory past e
      → FromHistory (c ∷ past) e
  later_history c past e h = inr h

  answer-FromHistory :
      (c : Call) (past : List Call) (s : Sessions)
      → All (FromHistory past) s
      → All (FromHistory (c ∷ past)) (answer hash_ticket s c).1
  unfolding answer create consume remove_expired
  answer-FromHistory (creates now ticket input) past s h =
      let c = creates now ticket input in
      let kept = All-imp (later_history c past) s h in
      elim (Bool-cases (is_terminal_shell input.shell)) [
        | inl shell ↦ rw shell (
            All-insert (FromHistory (c ∷ past)) (hash_ticket ticket) _ _
              (inl (refl, refl, shell, refl))
              (All-filter (FromHistory (c ∷ past)) (is_live now) s kept))
        | inr other ↦ rw other kept
      ]
  answer-FromHistory (consumes now ticket) past s h =
      let c = consumes now ticket in
      let kept = All-imp (later_history c past) s h in
      let left = All-delete (FromHistory (c ∷ past)) (hash_ticket ticket) s kept in
      elim (Option-cases (lookup (hash_ticket ticket) s)) [
        | inl missing ↦ rw missing kept
        | inr (session, found) ↦ elim (Bool-cases (leb session.expires_at now)) [
          | inl late ↦ rw (found, redeem) (rw late left)
          | inr live ↦ rw (found, redeem) (rw live left)
        ]
      ]

  after-FromHistory : (past : List Call) → All (FromHistory past) (after hash_ticket past)
  unfolding after
  after-FromHistory [] = tt
  after-FromHistory (c ∷ past) =
      answer-FromHistory c past (after hash_ticket past) (after-FromHistory past)

  -- A ticket that `consume` accepts was issued: some earlier `create` with the same hash, for a
  -- valid shell, made less than 60 seconds before, was given the very session that comes back.
  pub consume-Opened :
      (past : List Call) (now : ℕ) (ticket : String) (input : TerminalSessionInput)
      → (consume hash_ticket now ticket (after hash_ticket past)).0 ≡ some input
      → (expires : ℕ) × (now < expires) × AnyCall (Opened (hash_ticket ticket) input expires) past
  unfolding consume
  consume-Opened past now ticket input e =
      let s = after hash_ticket past in
      elim (Option-cases (lookup (hash_ticket ticket) s)) [
        | inl missing ↦ let nothing = rw (missing, redeem) at e in cc
        | inr (session, found) ↦
            let live = rw (found, redeem) at e in
            let origin =
              All-lookup (FromHistory past) (hash_ticket ticket) session s (after-FromHistory past)
                found in
            let same : session.input ≡ input = ground arith in
            (session.expires_at, ground arith, rw (← same) origin)
      ]

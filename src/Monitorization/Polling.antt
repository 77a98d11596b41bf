-- ===== src/Monitorization/Polling.antt =====
-- packages/containerhub-back/src/modules/monitoring/services/TaskMonitorizationManager.ts: `start`,
-- `stop` and the timer between two checks, as steps of a state. A call that awaits is two steps.
use containerhub.Prelude.{
  ℕ, zero, suc, ◌+◌, ◌≤◌, ◌≡◌, refl, Bool, true, false, not, Option, none, some, List, [], ◌∷◌,
  length, filter, All, if◌then◌else◌, ◌==◌, arith, inl, inr, ◌⊎◌, Bool-cases,
}

-- `loads` and `checks` are the loads of the database and the checks that are under way; `pending` are
-- the timers that have not fired, and `next` the number of the next timer.
pub record Poller : Type 0 where
  pub started : Bool
  pub timeout_id : Option ℕ
  pub pending : List ℕ
  pub loads : ℕ
  pub checks : ℕ
  pub next : ℕ

abbrev pub idle : Poller
idle = record { started = false; timeout_id = none; pending = []; loads = 0; checks = 0; next = 0 }

pub data Event : Type 0 where
  starts load_ends check_ends timer_fires stops : Event

abbrev clear : Option ℕ → List ℕ → List ℕ
clear none pending = pending
clear (some id) pending = filter (λ timer. not (timer == id)) pending

-- `checkTasks` begins: it returns at once unless the manager is started.
abbrev begin_check : Poller → Poller
begin_check p = if p.started then record p { checks = p.checks + 1 } else p

abbrev load_ended : ℕ → Poller → Poller
load_ended zero p = p
load_ended (suc loads) p = begin_check (record p { loads = loads })

-- The `finally` of `checkTasks`.
abbrev check_ended : ℕ → Poller → Poller
check_ended zero p = p
check_ended (suc checks) p =
    if p.started
    then record p {
      checks = checks;
      timeout_id = some p.next;
      pending = p.next ∷ p.pending;
      next = p.next + 1;
    }
    else record p { checks = checks }

abbrev timer_fired : List ℕ → Poller → Poller
timer_fired [] p = p
timer_fired (_ ∷ pending) p = begin_check (record p { pending = pending })

-- A step; an event that cannot happen changes nothing.
unfoldable pub step : Event → Poller → Poller
step starts p = if p.started then p else record p { started = true; loads = p.loads + 1 }
step load_ends p = load_ended p.loads p
step check_ends p = check_ended p.checks p
step timer_fires p = timer_fired p.pending p
step stops p = record p {
  started = false;
  timeout_id = none;
  pending = clear p.timeout_id p.pending;
}

-- The state after events, the latest of which comes first.
unfoldable pub after : List Event → Poller
unfolding step
after [] = idle
after (event ∷ events) = step event (after events)

-- A start that finds nothing under way, or the manager started.
abbrev IsCalmEvent : Event → Poller → Type 0
IsCalmEvent starts p = (p.started ≡ true) ⊎ (p.loads + p.checks ≡ 0)
IsCalmEvent _ p = Unit

abbrev pub AllCalm : List Event → Type 0
AllCalm [] = Unit
AllCalm (event ∷ events) = IsCalmEvent event (after events) × AllCalm events

-- What is under way or will fire.
abbrev pub loops : Poller → ℕ
loops p = p.loads + p.checks + length p.pending

record IsSteady (p : Poller) : Type 0 where
  tracked : All (λ timer. p.timeout_id ≡ some timer) p.pending
  one : loops p ≤ 1
  alive : p.started ≡ true → loops p ≡ 1
  still : p.started ≡ false → p.pending ≡ []

abbrev poller : Bool → Option ℕ → List ℕ → (loads checks next : ℕ) → Poller
poller started timeout_id pending loads checks next = record {
  started = started;
  timeout_id = timeout_id;
  pending = pending;
  loads = loads;
  checks = checks;
  next = next;
}

step-IsSteady :
    (event : Event) (b : Bool) (t : Option ℕ) (ps : List ℕ) (l c n : ℕ)
    → IsCalmEvent event (poller b t ps l c n)
    → IsSteady (poller b t ps l c n)
    → IsSteady (step event (poller b t ps l c n))
unfolding step
step-IsSteady starts true t ps l c n calm s = s
step-IsSteady starts false t [] l c n (inl e) s = absurd cc
step-IsSteady starts false t [] l c n (inr e) s = record {
  tracked = tt;
  one = omega arith;
  alive = λ _. omega arith;
  still = λ _. refl;
}
step-IsSteady starts false t (x ∷ ps) l c n calm s = let none_left = s.still refl in absurd cc
step-IsSteady load_ends b t ps zero c n calm s = s
step-IsSteady load_ends true t ps (suc l) c n calm s =
    let one = s.one in
    let alive = s.alive refl in
    record {
      tracked = s.tracked;
      one = omega arith;
      alive = λ _. omega arith;
      still = λ e. absurd cc;
    }
step-IsSteady load_ends false t ps (suc l) c n calm s =
    let one = s.one in
    record { tracked = s.tracked; one = omega arith; alive = λ e. absurd cc; still = s.still }
step-IsSteady check_ends b t ps l zero n calm s = s
step-IsSteady check_ends true t [] l (suc c) n calm s =
    let one = s.one in
    let alive = s.alive refl in
    record {
      tracked = (refl, tt);
      one = omega arith;
      alive = λ _. omega arith;
      still = λ e. absurd cc;
    }
step-IsSteady check_ends true t (x ∷ ps) l (suc c) n calm s =
    let one = s.one in absurd (omega arith)
step-IsSteady check_ends false t ps l (suc c) n calm s =
    let one = s.one in
    record { tracked = s.tracked; one = omega arith; alive = λ e. absurd cc; still = s.still }
step-IsSteady timer_fires b t [] l c n calm s = s
step-IsSteady timer_fires true t (x ∷ ps) l c n calm s =
    let one = s.one in
    let alive = s.alive refl in
    record {
      tracked = s.tracked.1;
      one = omega arith;
      alive = λ _. omega arith;
      still = λ e. absurd cc;
    }
step-IsSteady timer_fires false t (x ∷ ps) l c n calm s = let none_left = s.still refl in absurd cc
step-IsSteady stops b none [] l c n calm s =
    let one = s.one in
    record { tracked = tt; one = omega arith; alive = λ e. absurd cc; still = λ _. refl }
step-IsSteady stops b (some i) [] l c n calm s =
    let one = s.one in
    record { tracked = tt; one = omega arith; alive = λ e. absurd cc; still = λ _. refl }
step-IsSteady stops b none (x ∷ ps) l c n calm s = let held = s.tracked.0 in absurd cc
step-IsSteady stops b (some i) (x ∷ []) l c n calm s =
    let held = s.tracked.0 in
    let same : i ≡ x = cc in
    let cleared : (x == i) ≡ true = ground arith in
    let one = s.one in
    rw cleared
      (record { tracked = tt; one = omega arith; alive = λ e. absurd cc; still = λ _. refl })
step-IsSteady stops b (some i) (x ∷ y ∷ ps) l c n calm s = let one = s.one in absurd (omega arith)

after-IsSteady : (events : List Event) → AllCalm events → IsSteady (after events)
unfolding after
after-IsSteady [] calm = record {
  tracked = tt;
  one = omega arith;
  alive = λ e. absurd cc;
  still = λ _. refl;
}
after-IsSteady (event ∷ events) (calm, earlier) =
    let p = after events in
    step-IsSteady event p.started p.timeout_id p.pending p.loads p.checks p.next calm
      (after-IsSteady events earlier)

-- After any events in which the manager, once stopped, is started again only when no load or check is
-- under way, at most one load, check or timer is left: exactly one while the manager is started, so
-- the checks go on, and no timer once it is stopped.
pub one_loop :
    (events : List Event)
    → AllCalm events
    → (loops (after events) ≤ 1)
      × ((if (after events).started then loops (after events) else 1) ≡ 1)
      × ((if (after events).started then [] else (after events).pending) ≡ [])
one_loop events calm =
    let s = after-IsSteady events calm in
    (
      s.one,
      elim (Bool-cases (after events).started) [ inl e ↦ rw e (s.alive e) | inr e ↦ rw e refl ],
      elim (Bool-cases (after events).started) [ inl e ↦ rw e refl | inr e ↦ rw e (s.still e) ],
    )

-- ===== src/Collection/Rounds.antt =====
-- MonitoringCollector.ts: a configuration is collected at most once in its interval.
use Prim.Native.String.{String}
use containerhub.Prelude.{
  ℕ, ◌+◌, ◌*◌, ◌≤◌, ◌<◌, ◌≡◌, refl, ap, ◌∙◌, inl, inr, Bool, true, false, ◌&&◌, some, List, [], ◌∷◌,
  ◌++◌, any, if◌then◌else◌, ◌===◌, ◌otherwise◌, Outcome, ok, throw, eq_iff, eq_refl, arith,
  Bool-cases,
}
use containerhub.Prelude.Dict.{lookup, insert, lookup-insert}
use containerhub.Collection.{
  Configuration, Entry, Calls, Progress, Collector, is_due, collect_due, collect_one, collect_loop,
  collect, record_and_prune, record_fetched, report_failure, fetch_configuration_statistics,
}

-- When a configuration may be collected again.
abbrev next_time : String → List (String × ℕ) → ℕ
next_time id times = lookup id times otherwise 0

pub is_due_same :
    (c : Configuration) (now : ℕ) (date : String) (times times' : List (String × ℕ))
    → lookup c.id times ≡ lookup c.id times'
    → is_due c now date times ≡ is_due c now date times'
unfolding is_due
is_due_same c now date times times' e = rw e refl

module _ {W V : Type 0} (calls : Calls W V) (parse_int : String → ℕ)
    (fetch_statistics : String → Outcome (List (Entry V))) (now : ℕ) (date : String) where
  report_failure-times :
      (configuration : Configuration) (done : Bool) (progress : Progress W)
      → (report_failure calls configuration (done, progress)).next_collection
        ≡ progress.next_collection
  report_failure-times configuration true progress = refl
  report_failure-times configuration false progress = refl

  record_and_prune-times :
      (configuration : Configuration) (entries : List (Entry V)) (progress : Progress W)
      → (record_and_prune calls configuration now entries progress).1.next_collection
        ≡ progress.next_collection
  unfolding record_and_prune
  record_and_prune-times configuration entries progress = ground arith

  record_fetched-times :
      (configuration : Configuration) (fetched : Outcome (List (Entry V))) (progress : Progress W)
      → (record_fetched calls configuration now fetched progress).1.next_collection
        ≡ progress.next_collection
  record_fetched-times configuration (throw fault) progress = refl
  record_fetched-times configuration (ok entries) progress =
      record_and_prune-times configuration entries progress

  -- The time that a collection plans for the next one.
  abbrev pub planned : Configuration → ℕ
  planned configuration = now + parse_int configuration.collection_interval * 1000

  collect_due-times :
      (configuration : Configuration) (progress : Progress W)
      → (collect_due calls parse_int fetch_statistics now date configuration
          progress).next_collection
        ≡ insert configuration.id (planned configuration) progress.next_collection
  unfolding collect_due
  collect_due-times configuration progress =
      let planning = record progress {
        next_collection = insert configuration.id (planned configuration) progress.next_collection;
      } in
      let fetched = fetch_configuration_statistics fetch_statistics configuration in
      let done = record_fetched calls configuration now fetched planning in
      report_failure-times configuration done.0 done.1
      ∙ record_fetched-times configuration fetched planning

  -- Where a configuration is not yet due, its round changes nothing.
  early :
      (configuration : Configuration) (progress : Progress W)
      → now < next_time configuration.id progress.next_collection
      → collect_one calls parse_int fetch_statistics now date configuration progress ≡ progress
  unfolding collect_one is_due
  early configuration progress h = ground arith

  abbrev pub one : Configuration → Progress W → Progress W
  one = collect_one calls parse_int fetch_statistics now date

  abbrev loop : List Configuration → Progress W → Progress W
  loop = collect_loop calls parse_int fetch_statistics now date

  abbrev pub has_id : String → Configuration → Bool
  has_id id configuration = configuration.id === id

  pub collect_one-times :
      (configuration : Configuration) (progress : Progress W) (id : String)
      → lookup id (one configuration progress).next_collection ≡ (
          if is_due configuration now date progress.next_collection && has_id id configuration
          then some (planned configuration)
          else lookup id progress.next_collection)
  unfolding collect_one
  collect_one-times configuration progress id = ground (
    arith,
    collect_due-times configuration progress,
    lookup-insert configuration.id id (planned configuration) progress.next_collection,
  )

  -- Rounds of other configurations leave a time as it is.
  other_times :
      (configurations : List Configuration) (progress : Progress W) (id : String)
      → any (has_id id) configurations ≡ false
      → lookup id (loop configurations progress).next_collection
        ≡ lookup id progress.next_collection
  unfolding collect_loop
  other_times [] progress id h = refl
  other_times (c ∷ cs) progress id h =
      ground (arith, other_times cs (one c progress) id, collect_one-times c progress id)

  -- A time that has not come is kept.
  later_times :
      (configurations : List Configuration) (progress : Progress W) (id : String)
      → now < next_time id progress.next_collection
      → lookup id (loop configurations progress).next_collection
        ≡ lookup id progress.next_collection
  unfolding collect_loop
  later_times [] progress id h = refl
  later_times (c ∷ cs) progress id h = elim (Bool-cases (has_id id c)) [
    | inl same ↦
        let key : c.id ≡ id = (eq_iff c.id id).0 same in
        ap (λ (q : Progress W). lookup id (loop cs q).next_collection) (early c progress (rw key h))
        ∙ later_times cs progress id h
    | inr other ↦
        ground (arith, later_times cs (one c progress) id, collect_one-times c progress id)
  ]

  loop-append :
      (cs ds : List Configuration) (progress : Progress W)
      → loop (cs ++ ds) progress ≡ loop ds (loop cs progress)
  unfolding collect_loop
  loop-append [] ds progress = refl
  loop-append (c ∷ cs) ds progress = loop-append cs ds (one c progress)

  waits :
      (configuration : Configuration) (times : List (String × ℕ)) (later : ℕ) (day : String)
      → lookup configuration.id times ≡ some (planned configuration)
      → later < planned configuration
      → is_due configuration later day times ≡ false
  unfolding is_due
  waits configuration times later day found h = rw found (ground arith)

  due_later :
      (before behind : List Configuration) (c : Configuration) (progress : Progress W) (later : ℕ)
      (day : String)
      → any (has_id c.id) before ≡ false
      → is_due c now date progress.next_collection ≡ true
      → now ≤ later
      → later < planned c
      → is_due c later day (loop (before ++ c ∷ behind) progress).next_collection ≡ false
  unfolding collect_loop
  due_later before behind c progress later day first due n h =
      let reached = loop before progress in
      let still = is_due_same c now date _ _ (other_times before progress c.id first) ∙ due in
      let set : lookup c.id (one c reached).next_collection ≡ some (planned c) =
        collect_one-times c reached c.id ∙ rw (still, eq_refl c.id) refl in
      let held = later_times behind (one c reached) c.id (rw set (omega arith)) ∙ set in
      is_due_same c later day _ _ (
        ap (λ (p : Progress W). lookup c.id p.next_collection)
          (loop-append before (c ∷ behind) progress))
      ∙ waits c (loop behind (one c reached)).next_collection later day held h

-- A configuration that is due when a collection comes to it waits for its interval from then on,
-- whether its own collection fails or not and whatever is collected before and behind it: at no time
-- before the end of the interval is it due again. Another configuration with its id before it would
-- take its place.
pub collect_interval :
    {W V : Type 0} (calls : Calls W V) (parse_int : String → ℕ)
    (fetch_statistics : String → Outcome (List (Entry V))) (now later : ℕ) (date day : String)
    (before behind : List Configuration) (c : Configuration) (collector : Collector) (store : W)
    → collector.collecting ≡ false
    → any (λ d. d.id === c.id) before ≡ false
    → is_due c now date collector.times ≡ true
    → now ≤ later
    → later < now + parse_int c.collection_interval * 1000
    → let (after, report) =
        collect calls parse_int fetch_statistics now date (before ++ c ∷ behind) collector store in
      is_due c later day after.times ≡ false
unfolding collect
collect_interval calls parse_int fetch_statistics now later date day before behind c collector store
      idle first due n h =
    rw idle (
      due_later calls parse_int fetch_statistics now date before behind c
        (record { next_collection = collector.times; store = store; recorded = 0; failures = [] })
        later day first due n h)

-- ===== src/Collection.antt =====
-- packages/containerhub-back/src/modules/monitoring/services/: MonitoringCollector.ts, which collects
-- the statistics of services, and the samples of MonitoringSampleService.ts that it records and prunes.
-- The persistence framework is a store of a type of its own with the calls that are made of it.
pub mod Samples
pub mod Deletion
pub mod Rounds
pub mod Isolated
mod Tests
use Prim.Native.String.{String, compare}
use Prim.Native.Nat.{Ordering}
use containerhub.Prelude.{
  ℕ, ◌+◌, ◌*◌, Bool, true, false, ◌&&◌, ◌||◌, not, Option, none, some, List, [], ◌∷◌, ◌++◌, filter,
  take, if◌then◌else◌, ltb, ◌===◌, ◌otherwise◌, Outcome, Fault, ok, throw,
}
use containerhub.Prelude.Text.{is_empty, non_empty}
use containerhub.Prelude.Dict.{lookup, insert}

pub record Configuration : Type 0 where
  pub id : String
  pub service_id : String
  pub service_name : String
  pub status : String
  pub kind : String
  pub collection_interval : String
  pub collection_type : String
  pub since : Option String
  pub until : Option String
  pub holding_time : Option ℕ

-- The metrics of a task, of which only the time is read.
pub record Metrics (V : Type 0) : Type 0 where
  pub sampled_at : Option ℕ
  pub values : V

pub record Entry (V : Type 0) : Type 0 where
  pub task_id : String
  pub node_id : Option String
  pub state : Option String
  pub metrics : Option (Metrics V)

abbrev is_running : Option String → Bool
is_running none = false
is_running (some s) = s === "running"

abbrev has_metrics : {V : Type 0} → Option (Metrics V) → Bool
has_metrics none = false
has_metrics (some m) = true

unfoldable pub is_usable : {V : Type 0} → Entry V → Bool
is_usable entry = non_empty entry.task_id && has_metrics entry.metrics && is_running entry.state

-- The entries that are recorded.
unfoldable pub selected : {V : Type 0} → Configuration → List (Entry V) → List (Entry V)
unfolding is_usable
selected configuration entries =
    let statistics = filter is_usable entries in
    if configuration.collection_type === "replic" then take 1 statistics else statistics

-- Texts in their order.
abbrev not_after : String → String → Bool
not_after s t = elim (compare s t) [ Ordering.gt ↦ false | _ ↦ true ]

abbrev in_span : String → Option String → Option String → Bool
in_span date (some since) (some until) =
    non_empty since && non_empty until && not_after since date && not_after date until
in_span date _ _ = false

-- `isDue` at a time in milliseconds, the day of which is `date`.
unfoldable pub is_due :
    Configuration → (now : ℕ) (date : String) (next_collection : List (String × ℕ)) → Bool
is_due configuration now date next_collection =
    if not (configuration.status === "monitoring")
      || ltb now (lookup configuration.id next_collection otherwise 0)
    then false
    else if not (configuration.kind === "calendar")
    then true
    else in_span date configuration.since configuration.until

-- The service by its id, or by its name where the id is no longer known.
unfoldable pub fetch_configuration_statistics :
    {V : Type 0}
    → (fetch_statistics : String → Outcome (List (Entry V))) → Configuration
    → Outcome (List (Entry V))
fetch_configuration_statistics fetch_statistics configuration =
    elim (fetch_statistics configuration.service_id) [
      | ok entries ↦ ok entries
      | throw fault ↦
          if not (fault.message === "Service not found")
            || configuration.service_name === configuration.service_id
          then throw fault
          else fetch_statistics configuration.service_name
    ]

-- The calls on the samples, each with the store that it leaves, also when it throws.
pub record Calls (W V : Type 0) : Type 0 where
  pub record_sample : Configuration → Entry V → Metrics V → W → Outcome (Unit {0}) × W
  pub prune : Configuration → ℕ → W → Outcome (Unit {0}) × W

-- What a collection works on: the times of the next collections, the store, and its report.
pub record Progress (W : Type 0) : Type 0 where
  pub next_collection : List (String × ℕ)
  pub store : W
  pub recorded : ℕ
  pub failures : List String

module _ {W V : Type 0} (calls : Calls W V) where
  -- The loop over the entries: whether it came to its end, with what it left.
  unfoldable pub record_entries :
      Configuration → List (Entry V) → (store : W) (recorded : ℕ) → Bool × W × ℕ
  record_entries configuration [] store recorded = (true, store, recorded)
  record_entries configuration (entry ∷ entries) store recorded = elim entry.metrics [
    | none ↦ record_entries configuration entries store recorded
    | some metrics ↦
        let (answer, store') = calls.record_sample configuration entry metrics store in
        elim answer [
          | ok _ ↦ record_entries configuration entries store' (recorded + 1)
          | throw fault ↦ (false, store', recorded)
        ]
  ]

  -- The `try` of a round: whether all went well.
  unfoldable pub record_and_prune :
      Configuration → (now : ℕ) → List (Entry V) → Progress W → Bool × Progress W
  unfolding record_entries selected
  record_and_prune configuration now entries progress =
      let (done, store, recorded) =
        record_entries configuration (selected configuration entries) progress.store
          progress.recorded in
      let kept = record progress { store = store; recorded = recorded } in
      let (pruned, store') = calls.prune configuration now store in
      if done
      then (elim pruned [
        | ok _ ↦ (true, record kept { store = store' })
        | throw fault ↦ (false, record kept { store = store' })
      ])
      else (false, kept)

  abbrev pub record_fetched :
      Configuration → (now : ℕ) → Outcome (List (Entry V)) → Progress W → Bool × Progress W
  record_fetched configuration now (throw fault) progress = (false, progress)
  record_fetched configuration now (ok entries) progress =
      record_and_prune configuration now entries progress

  abbrev pub report_failure : Configuration → Bool × Progress W → Progress W
  report_failure configuration (true, progress) = progress
  report_failure configuration (false, progress) = record progress {
    failures = progress.failures ++ configuration.service_id ∷ [];
  }

  -- `parse_int` is `Number.parseInt` of an interval.
  module _ (parse_int : String → ℕ) (fetch_statistics : String → Outcome (List (Entry V))) (now : ℕ)
      (date : String) where
    unfoldable pub collect_due : Configuration → Progress W → Progress W
    unfolding record_and_prune fetch_configuration_statistics
    collect_due configuration progress =
        let planned = record progress {
          next_collection =
              insert configuration.id (now + parse_int configuration.collection_interval * 1000)
                progress.next_collection;
        } in
        report_failure configuration (
          record_fetched configuration now
            (fetch_configuration_statistics fetch_statistics configuration) planned)

    -- A round of the loop.
    unfoldable pub collect_one : Configuration → Progress W → Progress W
    unfolding is_due collect_due
    collect_one configuration progress =
        if is_due configuration now date progress.next_collection
        then collect_due configuration progress
        else progress

    unfoldable pub collect_loop : List Configuration → Progress W → Progress W
    unfolding collect_one
    collect_loop [] progress = progress
    collect_loop (configuration ∷ configurations) progress =
        collect_loop configurations (collect_one configuration progress)

-- The collector between its calls.
pub record Collector : Type 0 where
  pub collecting : Bool
  pub times : List (String × ℕ)

module _ {W V : Type 0} (calls : Calls W V) (parse_int : String → ℕ)
    (fetch_statistics : String → Outcome (List (Entry V))) where
  -- `collect`, from its first step to its last: a call while another one runs does nothing.
  unfoldable pub collect :
      (now : ℕ) (date : String) (configurations : List Configuration)
      → Collector
      → W
      → Collector × Progress W
  unfolding collect_loop
  collect now date configurations collector store =
      let fresh : Progress W = record {
        next_collection = collector.times;
        store = store;
        recorded = 0;
        failures = [];
      } in
      let done = collect_loop calls parse_int fetch_statistics now date configurations fresh in
      if collector.collecting
      then (collector, fresh)
      else (record collector { times = done.next_collection }, done)

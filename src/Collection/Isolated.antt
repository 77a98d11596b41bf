-- ===== src/Collection/Isolated.antt =====
-- MonitoringCollector.ts: what a collection reports.
use Prim.Native.String.{String}
use containerhub.Prelude.{
  ℕ, ◌+◌, ◌*◌, ◌≤◌, ◌≡◌, refl, sym, ◌∙◌, inl, inr, Bool, true, false, ◌&&◌, not, none, some, List,
  [], ◌∷◌, ◌++◌, length, any, filter, take, if◌then◌else◌, ◌===◌, Outcome, ok, throw, eq_iff, arith,
  Option-cases, &&-eq-true, append_if-append,
}
use mathlib.Core.List.{append-nil}
use containerhub.Prelude.Dict.{insert}
use containerhub.Collection.{
  Configuration, Entry, Metrics, Calls, Progress, Collector, is_usable, selected, is_due,
  collect_due, collect_one, collect_loop, collect, record_entries, record_and_prune, record_fetched,
  report_failure, fetch_configuration_statistics,
}
use containerhub.Collection.Rounds.{is_due_same, collect_one-times}

abbrev pub is_ok : Outcome (Unit {0}) → Bool
is_ok (ok _) = true
is_ok (throw fault) = false

-- How many entries have metrics.
abbrev measured : {V : Type 0} → List (Entry V) → ℕ
measured [] = 0
measured (e ∷ es) = elim e.metrics [ none ↦ measured es | some m ↦ measured es + 1 ]

measured-usable :
    {V : Type 0} (es : List (Entry V))
    → measured (filter is_usable es) ≡ length (filter is_usable es)
unfolding is_usable
measured-usable [] = refl
measured-usable (e ∷ es) = ground (arith, measured-usable es)

measured-le : {V : Type 0} (es : List (Entry V)) → measured es ≤ length es
measured-le [] = omega arith
measured-le (e ∷ es) = ground (arith, measured-le es)

measured-take :
    {V : Type 0} (es : List (Entry V))
    → measured es ≡ length es
    → measured (take 1 es) ≡ length (take 1 es)
measured-take [] h = refl
measured-take (e ∷ es) h = ground (arith, measured-le es)

measured-selected :
    {V : Type 0} (c : Configuration) (es : List (Entry V))
    → measured (selected c es) ≡ length (selected c es)
unfolding selected
measured-selected c es = ground (arith, measured-usable es, measured-take (filter is_usable es))

abbrev pub is_fault : {V : Type 0} → Outcome (List (Entry V)) → Bool
is_fault (ok es) = false
is_fault (throw fault) = true

abbrev pub usable_in : {V : Type 0} → Configuration → Outcome (List (Entry V)) → ℕ
usable_in c (ok es) = length (selected c es)
usable_in c (throw fault) = 0

abbrev has_id : String → Configuration → Bool
has_id id d = d.id === id

abbrev pub distinct : List Configuration → Bool
distinct [] = true
distinct (c ∷ cs) = not (any (has_id c.id) cs) && distinct cs

module _ {V : Type 0} (fetch : String → Outcome (List (Entry V))) (now : ℕ) (date : String) where
  -- What a due configuration adds to the report.
  abbrev pub fails : Configuration → Bool
  fails c = is_fault (fetch_configuration_statistics fetch c)

  abbrev pub samples_of : Configuration → ℕ
  samples_of c = usable_in c (fetch_configuration_statistics fetch c)

  abbrev due_in : List (String × ℕ) → Configuration → Bool
  due_in times c = is_due c now date times

  abbrev pub failures_of : List (String × ℕ) → List Configuration → List String
  failures_of times [] = []
  failures_of times (c ∷ cs) =
      let rest = failures_of times cs in
      if due_in times c && fails c then c.service_id ∷ rest else rest

  abbrev pub samples_in : List (String × ℕ) → List Configuration → ℕ
  samples_in times [] = 0
  samples_in times (c ∷ cs) =
      let rest = samples_in times cs in if due_in times c then samples_of c + rest else rest

-- The store takes every sample and every pruning.
abbrev pub Accepts : {W V : Type 0} → Calls W V → Type 0
Accepts {W} {V} calls =
    ((c : Configuration) (e : Entry V) (m : Metrics V) (w : W)
      → is_ok (calls.record_sample c e m w).0 ≡ true)
    × ((c : Configuration) (now : ℕ) (w : W) → is_ok (calls.prune c now w).0 ≡ true)

not-eq-true : (b : Bool) → not b ≡ true → b ≡ false
not-eq-true b h = ground arith

module _ {W V : Type 0} (calls : Calls W V) (accepts : Accepts calls) where
  record_entries-all :
      (c : Configuration) (es : List (Entry V)) (w : W) (n : ℕ)
      → ((record_entries calls c es w n).0 ≡ true)
        × ((record_entries calls c es w n).2 ≡ n + measured es)
  unfolding record_entries
  record_entries-all c [] w n = (refl, omega arith)
  record_entries-all c (e ∷ es) w n = elim (Option-cases e.metrics) [
    | inl missing ↦ rw missing (record_entries-all c es w n)
    | inr (m, found) ↦
        let w' = (calls.record_sample c e m w).1 in
        rw found (ground (arith, accepts.0 c e m w, record_entries-all c es w' (n + 1)))
  ]

  record_and_prune-all :
      (c : Configuration) (now : ℕ) (es : List (Entry V)) (p : Progress W)
      → let (done, q) = record_and_prune calls c now es p in
        (done ≡ true)
        × (q.recorded ≡ p.recorded + length (selected c es))
        × (q.failures ≡ p.failures)
        × q.next_collection ≡ p.next_collection
  unfolding record_and_prune
  record_and_prune-all c now es p =
      let store' = (record_entries calls c (selected c es) p.store p.recorded).1 in
      ground (
        arith,
        accepts.1 c now store',
        record_entries-all c (selected c es) p.store p.recorded,
        measured-selected c es,
      )

  report_fetched :
      (c : Configuration) (now : ℕ) (fetched : Outcome (List (Entry V))) (p : Progress W)
      → let q = report_failure calls c (record_fetched calls c now fetched p) in
        (q.recorded ≡ p.recorded + usable_in c fetched)
        × (q.failures ≡ p.failures ++ (if is_fault fetched then c.service_id ∷ [] else []))
  report_fetched c now (throw fault) p = (omega arith, refl)
  report_fetched c now (ok es) p =
      ground (arith, record_and_prune-all c now es p, append-nil p.failures)

  module _ (parse_int : String → ℕ) (fetch : String → Outcome (List (Entry V))) (now : ℕ)
      (date : String) where
    collect_due-report :
        (c : Configuration) (p : Progress W)
        → let q = collect_due calls parse_int fetch now date c p in
          (q.recorded ≡ p.recorded + samples_of fetch now date c)
          × (q.failures ≡ p.failures ++ (if fails fetch now date c then c.service_id ∷ [] else []))
    unfolding collect_due
    collect_due-report c p =
        report_fetched c now (fetch_configuration_statistics fetch c) (record p {
          next_collection =
              insert c.id (now + parse_int c.collection_interval * 1000) p.next_collection;
        })

    abbrev one : Configuration → Progress W → Progress W
    one = collect_one calls parse_int fetch now date

    collect_one-report :
        (c : Configuration) (p : Progress W)
        → let q = one c p in
          (q.recorded
            ≡ p.recorded
              + (if due_in fetch now date p.next_collection c
                  then samples_of fetch now date c
                  else 0))
          × (q.failures
              ≡ p.failures
                ++ (if due_in fetch now date p.next_collection c && fails fetch now date c
                    then c.service_id ∷ []
                    else []))
    unfolding collect_one
    collect_one-report c p = ground (arith, collect_due-report c p, append-nil p.failures)

    -- A round for one configuration leaves the others as due as they were.
    due_in-one :
        (c : Configuration) (p : Progress W) (cs : List Configuration)
        → any (has_id c.id) cs ≡ false
        → (failures_of fetch now date (one c p).next_collection cs
            ≡ failures_of fetch now date p.next_collection cs)
          × (samples_in fetch now date (one c p).next_collection cs
              ≡ samples_in fetch now date p.next_collection cs)
    due_in-one c p [] h = (refl, refl)
    due_in-one c p (d ∷ ds) h =
        let same = is_due_same d now date (one c p).next_collection p.next_collection in
        let times = collect_one-times calls parse_int fetch now date c p d.id in
        ground (arith, due_in-one c p ds, same, times, eq_iff c.id d.id, eq_iff d.id c.id)

    collect_loop-report :
        (cs : List Configuration) (p : Progress W)
        → distinct cs ≡ true
        → let q = collect_loop calls parse_int fetch now date cs p in
          (q.recorded ≡ p.recorded + samples_in fetch now date p.next_collection cs)
          × (q.failures ≡ p.failures ++ failures_of fetch now date p.next_collection cs)
    unfolding collect_loop
    collect_loop-report [] p h = (omega arith, sym (append-nil p.failures))
    collect_loop-report (c ∷ cs) p h =
        let others = not-eq-true (any (has_id c.id) cs) (&&-eq-true _ _ h).0 in
        let here = collect_one-report c p in
        let later =
          collect_loop-report cs (one c p) (&&-eq-true (not (any (has_id c.id) cs)) _ h).1 in
        let same = due_in-one c p cs others in
        (
          ground (arith, here, later, same),
          later.1
              ∙ (rw (here.1, same.0)
                  (append_if-append
                    (due_in fetch now date p.next_collection c && fails fetch now date c) p.failures
                    (failures_of fetch now date p.next_collection cs) c.service_id)),
        )

-- With a store that takes every sample and does not fail at any pruning, a collection of
-- configurations with different ids, when none is under way, reports
-- exactly the services of the due configurations whose statistics cannot be fetched, in their order,
-- and counts exactly the usable samples of the other due ones: a service that fails keeps no other
-- from being collected.
pub collect-report :
    {W V : Type 0} (calls : Calls W V) (parse_int : String → ℕ)
    (fetch : String → Outcome (List (Entry V))) (now : ℕ) (date : String) (cs : List Configuration)
    (collector : Collector) (store : W) (accepts : Accepts calls)
    → collector.collecting ≡ false
    → distinct cs ≡ true
    → let (after, report) = collect calls parse_int fetch now date cs collector store in
      (report.failures ≡ failures_of fetch now date collector.times cs)
      × (report.recorded ≡ samples_in fetch now date collector.times cs)
unfolding collect
collect-report {W} calls parse_int fetch now date cs collector store accepts idle d =
    let fresh : Progress W = record {
      next_collection = collector.times;
      store = store;
      recorded = 0;
      failures = [];
    } in
    let (counted, failed) = collect_loop-report calls accepts parse_int fetch now date cs fresh d in
    rw idle (failed, omega (arith, counted))

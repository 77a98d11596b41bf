-- ===== src/Collection/Tests.antt =====
-- Runs of the collector and of its samples.
use Prim.Native.String.{String}
use containerhub.Prelude.{
  ℕ, zero, suc, ◌+◌, ◌-◌, ◌≡◌, refl, true, false, none, some, List, [], ◌∷◌, if◌then◌else◌, ◌==◌,
  ◌===◌, Outcome, ok, throw, error, arith,
}
use containerhub.Prelude.Dict.{lookup}
use containerhub.Collection.{
  Configuration, Entry, Calls, Collector, is_due, selected, fetch_configuration_statistics, collect,
}
use containerhub.Collection.Samples.{Query, history_query, delete_matching}
use containerhub.Collection.Deletion.{deletes_all, Finds}
use containerhub.Collection.Rounds.{collect_interval}
use containerhub.Collection.Isolated.{collect-report}

abbrev web : Configuration
web = record {
  id = "c1";
  service_id = "s1";
  service_name = "web";
  status = "monitoring";
  kind = "calendar";
  collection_interval = "30s";
  collection_type = "replic";
  since = some "2026-01-01";
  until = some "2026-12-31";
  holding_time = none;
}

abbrev broken : Configuration
broken = record web { id = "c2"; service_id = "s2"; service_name = "s2" }

-- One task runs in two replicas; the service is known by its name only.
abbrev entry : String → Entry ℕ
entry task = record {
  task_id = task;
  node_id = none;
  state = some "running";
  metrics = some (record { sampled_at = none; values = 1 });
}

abbrev fetch : String → Outcome (List (Entry ℕ))
fetch service =
    if service === "web"
    then ok (entry "t1" ∷ entry "t2" ∷ [])
    else throw (error "Service not found")

-- The store counts its samples.
abbrev counting : Calls ℕ ℕ
counting = record { record_sample = λ c e m w. (ok tt, w + 1); prune = λ c now w. (ok tt, w) }

abbrev seconds : String → ℕ
seconds interval = 30

abbrev idle : Collector
idle = record { collecting = false; times = [] }

by_name : fetch_configuration_statistics fetch web ≡ ok (entry "t1" ∷ entry "t2" ∷ [])
unfolding fetch_configuration_statistics
by_name = refl

in_season : is_due web 5 "2026-03-01" [] ≡ true
unfolding is_due lookup
in_season = refl

out_of_season : is_due web 5 "2027-03-01" [] ≡ false
unfolding is_due lookup
out_of_season = refl

latest_samples : (history_query "c1" none none (some 5000)).limit ≡ 1000
unfolding history_query
latest_samples = refl

collect_interval_example :
    let (after, report) =
      collect counting seconds fetch 1000 "2026-03-01" (broken ∷ web ∷ []) idle 0 in
    is_due web 30999 "2026-03-01" after.times ≡ false
unfolding is_due lookup
collect_interval_example =
    collect_interval counting seconds fetch 1000 30999 "2026-03-01" "2026-03-01" (broken ∷ []) []
      web idle 0 refl refl refl (omega arith) (omega arith)

collect-report_example :
    let (after, report) =
      collect counting seconds fetch 1000 "2026-03-01" (broken ∷ web ∷ []) idle 0 in
    (report.failures ≡ "s2" ∷ []) × (report.recorded ≡ 1)
unfolding is_due lookup fetch_configuration_statistics selected
collect-report_example =
    collect-report counting seconds fetch 1000 "2026-03-01" (broken ∷ web ∷ []) idle 0
      (λ c e m w. refl, λ c now w. refl) refl refl

-- A store of as many samples as its number says.
abbrev find_one : Query → ℕ → Outcome (List ℕ)
find_one query w = if w == 0 then ok [] else ok (0 ∷ [])

abbrev delete_one : ℕ → ℕ → Outcome ℕ
delete_one sample w = ok (w - 1)

finds : (w : ℕ) → Finds find_one delete_one [] (λ w. w) w
finds zero = ([], refl, refl, tt)
finds (suc w) = (0 ∷ [], ground arith, ground arith, (w, ground arith, omega arith, tt))

deletes_all_example :
    (w' : ℕ) × (delete_matching find_one delete_one 4 [] 3 0 ≡ some (ok (w', 3))) × (w' ≡ 0)
deletes_all_example = deletes_all find_one delete_one [] (λ w. w) 4 3 finds (omega arith)

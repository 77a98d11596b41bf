-- ===== src/Collection/Samples.antt =====
-- MonitoringSampleService.ts: the samples that are recorded, shown and pruned. `create`, `find` and
-- `delete` are those of the persistence framework.
use Prim.Native.String.{String}
use containerhub.Prelude.{
  ℕ, zero, suc, ◌+◌, ◌-◌, ◌*◌, min, ◌||◌, not, Option, none, some, List, [], ◌∷◌, ◌++◌,
  if◌then◌else◌, ◌===◌, ◌==◌, ◌otherwise◌, Outcome, ok, throw, ◌>>=◌,
}
use mathlib.Core.List.{reverse}
use containerhub.Prelude.Text.{◌<>◌}
use containerhub.Collection.{Configuration, Entry, Metrics}

pub data FilterValue : Type 0 where
  text : String → FilterValue
  time : ℕ → FilterValue

pub record FieldFilter : Type 0 where
  pub field : String
  pub operator : String
  pub value : FilterValue

pub record Query : Type 0 where
  pub limit : ℕ
  pub order_by : String
  pub order : String
  pub search : String
  pub filters : List FieldFilter

pub record SampleBase (V : Type 0) : Type 0 where
  pub sample_key : String
  pub configuration_id : String
  pub service_id : String
  pub service_name : String
  pub task_id : String
  pub node_id : Option String
  pub sampled_at : ℕ
  pub metrics : Metrics V

-- `iso` writes a time as a text.
unfoldable pub sample_of :
    {V : Type 0}
    → (iso : ℕ → String) → (now : ℕ) → Configuration
    → Entry V
    → Metrics V
    → SampleBase V
sample_of iso now configuration entry metrics =
    let sampled_at = metrics.sampled_at otherwise now in
    record {
      sample_key = configuration.id <> ":" <> entry.task_id <> ":" <> iso sampled_at;
      configuration_id = configuration.id;
      service_id = configuration.service_id;
      service_name = configuration.service_name;
      task_id = entry.task_id;
      node_id = entry.node_id;
      sampled_at = sampled_at;
      metrics = metrics;
    }

abbrev of_configuration : String → FieldFilter
of_configuration id = record { field = "configurationId"; operator = "eq"; value = text id }

abbrev at_time : String → ℕ → FieldFilter
at_time operator instant = record { field = "sampledAt"; operator = operator; value = time instant }

abbrev when : String → Option ℕ → List FieldFilter
when operator none = []
when operator (some instant) = at_time operator instant ∷ []

-- What `history` asks the repository for.
unfoldable pub history_query : (configuration_id : String) (since until limit : Option ℕ) → Query
history_query configuration_id since until limit = record {
  limit = min (limit otherwise 500) 1000;
  order_by = "sampledAt";
  order = "desc";
  search = "";
  filters = of_configuration configuration_id ∷ when "gte" since ++ when "lte" until;
}

-- What `deleteMatching` asks for.
abbrev pub oldest : List FieldFilter → Query
oldest filters = record {
  limit = 500;
  order_by = "sampledAt";
  order = "asc";
  search = "";
  filters = filters;
}

-- The calls on a store `W` of samples `S`.
module _ {W S : Type 0} (find : Query → W → Outcome (List S)) (delete : S → W → Outcome W) where
  unfoldable pub history :
      (configuration_id : String) (since until limit : Option ℕ) → W → Outcome (List S)
  unfolding history_query
  history configuration_id since until limit w =
      find (history_query configuration_id since until limit) w >>= λ latest. ok (reverse latest)

  -- The inner loop: the store that is left, and how many samples have been deleted.
  unfoldable pub delete_each : List S → W → ℕ → Outcome (W × ℕ)
  delete_each [] w deleted = ok (w, deleted)
  delete_each (sample ∷ samples) w deleted =
      delete sample w >>= λ w'. delete_each samples w' (deleted + 1)

  -- `deleteMatching` in as many rounds as the fuel allows; `none` where it would go on.
  unfoldable pub delete_matching : (fuel : ℕ) → List FieldFilter → W → ℕ → Option (Outcome (W × ℕ))
  unfolding delete_each
  delete_matching zero filters w deleted = none
  delete_matching (suc fuel) filters w deleted = elim (find (oldest filters) w) [
    | throw fault ↦ some (throw fault)
    | ok [] ↦ some (ok (w, deleted))
    | ok (sample ∷ samples) ↦ elim (delete_each (sample ∷ samples) w deleted) [
      | throw fault ↦ some (throw fault)
      | ok (w', deleted') ↦ delete_matching fuel filters w' deleted'
    ]
  ]

  unfoldable pub prune : (fuel : ℕ) → Configuration → (now : ℕ) → W → Option (Outcome (W × ℕ))
  unfolding delete_matching
  prune fuel configuration now w =
      let holding = configuration.holding_time otherwise 0 in
      if not (configuration.kind === "permanent") || holding == 0
      then some (ok (w, 0))
      else delete_matching fuel
          (of_configuration configuration.id ∷ at_time "lt" (now - holding * 86400000) ∷ []) w 0

  unfoldable pub delete_for_configuration : (fuel : ℕ) → String → W → Option (Outcome (W × ℕ))
  unfolding delete_matching
  delete_for_configuration fuel configuration_id w =
      delete_matching fuel (of_configuration configuration_id ∷ []) w 0

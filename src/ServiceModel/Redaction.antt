-- ===== src/ServiceModel/Redaction.antt =====
-- The model with its values hidden, as readers without the permission are shown it.
use Prim.Native.String.{String}
use containerhub.Prelude.{
  ◌≡◌, refl, ap, ap₂, true, false, Option, none, some, List, [], ◌∷◌, map, ◌otherwise◌, ◌>>=◌,
  Outcome, ok, throw,
}
use containerhub.Prelude.Text.{cut_first}
use containerhub.DockerSpec.{Labels, DockerServiceSpec}
use containerhub.ServiceSpec.{empty_spec}
use containerhub.ServiceModel.{
  NamedText, ServiceModel, DockerServiceItem, redacted, environment_entry, map_environment,
  map_labels, model_of, service_id, map_inspect_to_service_model,
}

abbrev hidden : NamedText → NamedText
hidden text = record { name = text.name; value = redacted }

-- The model with `[REDACTED]` for each value of a variable or a label.
abbrev pub without_values : {N : Type 0} → ServiceModel N → ServiceModel N
without_values model = record model {
  envs = map hidden model.envs;
  labels = map hidden model.labels;
}

map_environment-hidden :
    (values : List String) → map_environment values false ≡ map hidden (map_environment values true)
unfolding map_environment
map_environment-hidden [] = refl
map_environment-hidden (entry ∷ values) =
    ap₂ ◌∷◌ (each entry (cut_first b'=' entry)) (map_environment-hidden values)
  where
    each :
        (entry : String) (cut : Option (String × String))
        → environment_entry false entry cut ≡ hidden (environment_entry true entry cut)
    each entry none = refl
    each entry (some (name, value)) = refl

map_labels-hidden :
    (labels : Labels) → map_labels labels false ≡ map hidden (map_labels labels true)
unfolding map_labels
map_labels-hidden [] = refl
map_labels-hidden ((name, value) ∷ labels) =
    ap (◌∷◌ (record { name = name; value = redacted })) (map_labels-hidden labels)

-- Without the permission, a service is refused or shown exactly as with it, but for the values of
-- its variables and labels, which all read `[REDACTED]`.
pub redaction :
    {N : Type 0} (one : N) (to_seconds : N → N) (upper : String → String)
    (item : DockerServiceItem N)
    → map_inspect_to_service_model one to_seconds upper item false ≡ (
        map_inspect_to_service_model one to_seconds upper item true >>= λ model.
        ok (without_values model))
unfolding map_inspect_to_service_model model_of
redaction {N = N} one to_seconds upper item = go (service_id item) (item.spec otherwise empty_spec)
  where
    go :
        (id : Outcome String) (spec : DockerServiceSpec N)
        → (id >>= λ i.
            ok (model_of one to_seconds upper i item.created_at item.updated_at spec false))
          ≡ ((id >>= λ i.
                ok (model_of one to_seconds upper i item.created_at item.updated_at spec true))
              >>= λ model. ok (without_values model))
    go (throw e) spec = refl
    go (ok i) spec = rw (map_environment-hidden, map_labels-hidden) refl

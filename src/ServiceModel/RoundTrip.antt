-- ===== src/ServiceModel/RoundTrip.antt =====
-- A service that is created, and read back.
use Prim.Native.String.{String}
use containerhub.Prelude.{
  ◌≡◌, refl, ap, ap₂, true, false, Option, none, some, List, [], ◌∷◌, map, All, arith, ◌otherwise◌,
  ◌or_else◌, if◌then◌else◌, map?, bind?, is_some, ◌||◌, >>=-eq-ok, ok, traverse, map-traverse,
}
use containerhub.Prelude.Text.{◌<>◌, Free, cut_first, cut_first-append, single-append}
use containerhub.Prelude.Dict.{lookup, insert, lookup-insert}
use containerhub.DockerSpec.{Labels, DockerMount, DockerServiceSpec}
use containerhub.ServiceSpec.{
  empty_spec, container_of, to_task_template, assembled, to_service_spec, to_service_spec-eq-ok,
}
use containerhub.ServiceSpec.Input.{NamedValue, VolumeInput, ConstraintInput, ServiceInput}
use containerhub.ServiceSpec.Parts.{
  stack_label, truthy, to_mount_settings, given_or, to_container_spec, to_placement,
  to_service_labels, stack_of, env_entry, previous_container_task, empty_placement,
}
use containerhub.ServiceModel.{
  ServiceVolume, map_environment, environment_entry, map_mount, map_constraint, model_of,
}
use containerhub.ServiceModel.Constraint.{Solid, IsOperation, IsValue, map_constraint-print}

map-map_of {ℓ} :
    {A B C : Type ℓ} (P : A → Type 0) (f : A → B) (g : B → C) (h : A → C)
    → ((x : A) → P x → g (f x) ≡ h x)
    → (xs : List A) → All P xs
    → map g (map f xs) ≡ map h xs
map-map_of P f g h each [] _ = refl
map-map_of P f g h each (x ∷ xs) (p, ps) = ap₂ ◌∷◌ (each x p) (map-map_of P f g h each xs ps)

environment_entry-print :
    (env : NamedValue)
    → Free b'=' env.name
    → environment_entry true (env_entry env) (cut_first b'=' (env_entry env))
      ≡ record { name = env.name; value = env.value otherwise "" }
environment_entry-print env h =
    rw (single-append, cut_first-append "=" env.name (env.value otherwise "") h)

abbrev volume_shown : VolumeInput → ServiceVolume
volume_shown v = record {
  type = v.type otherwise "bind";
  host_volume = (v.host_volume or_else v.source) otherwise "";
  container_volume = (v.container_volume or_else v.target) otherwise "";
  read_only = v.read_only otherwise false;
}

map_mount-to_mount_settings :
    (v : VolumeInput) (m : DockerMount) → to_mount_settings v ≡ ok m → map_mount m ≡ volume_shown v
unfolding map_mount to_mount_settings
map_mount-to_mount_settings v m e = ground arith

-- What an input can hold that is read back as it is given: names of variables without `=`,
-- constraints that the model's pattern splits where they were joined, and a stack that is not empty.
pub record IsReadable {N : Type 0} (input : ServiceInput N) : Type 0 where
  pub envs : All (λ env. Free b'=' env.name) (input.envs otherwise [])
  pub constraints :
      All
        (λ c. Solid c.name × IsOperation c.operation × IsValue c.value)
        (input.constraints otherwise [])
  pub stack : truthy input.stack ≡ true

shown_volumes :
    (volumes : Option (List VolumeInput)) (mounts : Option (List DockerMount))
    → given_or to_mount_settings volumes none ≡ ok mounts
    → map map_mount (mounts otherwise []) ≡ map volume_shown (volumes otherwise [])
unfolding given_or
shown_volumes none mounts e = let same : none ≡ mounts = cc in rw (← same) refl
shown_volumes (some volumes) mounts e =
    let (given, each, e1) = >>=-eq-ok (traverse to_mount_settings volumes) _ e in
    let same : some given ≡ mounts = cc in
    rw (← same) (
      map-traverse to_mount_settings map_mount volume_shown map_mount-to_mount_settings volumes
        given each)

shown_envs :
    (envs : Option (List NamedValue))
    → All (λ env. Free b'=' env.name) (envs otherwise [])
    → map_environment ((map? (map env_entry) envs or_else none) otherwise []) true
      ≡ map (λ env. record { name = env.name; value = env.value otherwise "" }) (envs otherwise [])
unfolding map_environment
shown_envs none h = refl
shown_envs (some envs) h = map-map_of _ env_entry _ _ environment_entry-print envs h

or_else-none {ℓ} : {A : Type ℓ} (o : Option A) → (o or_else none) ≡ o
or_else-none none = refl
or_else-none (some a) = refl

-- A stack that is given is the one that its label names.
stack_shown :
    (stack : Option String) (labels : Labels)
    → truthy stack ≡ true
    → lookup stack_label (
        if truthy (stack or_else none)
        then insert stack_label ((stack or_else none) otherwise "") labels
        else labels)
      ≡ stack
stack_shown none labels h = cc
stack_shown (some stack) labels h = rw h (rw lookup-insert refl)

constraint_entry-print :
    (c : ConstraintInput)
    → Solid c.name × IsOperation c.operation × IsValue c.value
    → map_constraint (c.name <> " " <> c.operation <> " " <> c.value)
      ≡ record { name = c.name; operation = c.operation; value = c.value }
constraint_entry-print c (h, o, v) = map_constraint-print c.name c.operation c.value h o v

shown_constraints :
    {N : Type 0} (input : ServiceInput N)
    → All
        (λ c. Solid c.name × IsOperation c.operation × IsValue c.value)
        (input.constraints otherwise [])
    → map map_constraint (bind? (to_placement input none) (λ p. p.constraints) otherwise [])
      ≡ map
          (λ c. record { name = c.name; operation = c.operation; value = c.value })
          (input.constraints otherwise [])
unfolding to_placement
shown_constraints input = go input.constraints input.preferences
  where
    go :
        (constraints : Option (List ConstraintInput)) (preferences : Option (List (Option String)))
        → All
            (λ c. Solid c.name × IsOperation c.operation × IsValue c.value)
            (constraints otherwise [])
        → map map_constraint (
            bind?
              (if is_some constraints || is_some preferences
                then some (record empty_placement {
                  constraints =
                      map? (map (λ c. c.name <> " " <> c.operation <> " " <> c.value)) constraints;
                  preferences = map? (map (λ p. some (p otherwise ""))) preferences;
                })
                else none)
              (λ p. p.constraints)
            otherwise [])
          ≡ map
              (λ c. record { name = c.name; operation = c.operation; value = c.value })
              (constraints otherwise [])
    go none none h = refl
    go none (some preferences) h = refl
    go (some constraints) preferences h =
        map-map_of _ _ map_constraint _ constraint_entry-print constraints h

module _ {N : Type 0} (one : N) (to_nanoseconds to_seconds : N → N)
    (lower upper : String → String) where
  -- A service that is created from an input that can be read back (names of variables without `=`,
  -- constraints of a name without white space, `==` or `!=`, and a value on one line that does not
  -- begin with white space, and a stack that is given and not empty), and is not refused, is shown
  -- with the name, the stack, the variables, the volumes, the constraints and the name servers of the
  -- input; a value that is missing is shown as its default.
  pub created_reads_back :
      (input : ServiceInput N) (spec : DockerServiceSpec N) (id : String)
      → to_service_spec one to_nanoseconds lower input empty_spec ≡ ok spec
      → IsReadable input
      → let shown = model_of one to_seconds upper id none none spec true in
        (shown.name ≡ input.name)
        × (shown.stack ≡ input.stack)
        × (shown.envs
            ≡ map
                (λ env. record { name = env.name; value = env.value otherwise "" })
                (input.envs otherwise []))
        × (shown.volumes ≡ map volume_shown (input.volumes otherwise []))
        × (shown.constraints
            ≡ map
                (λ c. record { name = c.name; operation = c.operation; value = c.value })
                (input.constraints otherwise []))
        × (shown.dns ≡ input.dns otherwise [])
  unfolding model_of to_container_spec to_task_template container_of assembled
      previous_container_task to_service_labels stack_of
  created_reads_back input spec id e r =
      let (mounts, ports, converted, ported, named, same) =
        to_service_spec-eq-ok one to_nanoseconds lower input empty_spec spec e in
      rw same (
        or_else-none input.name,
        stack_shown input.stack _ r.stack,
        shown_envs input.envs r.envs,
        shown_volumes input.volumes mounts converted,
        shown_constraints input r.constraints,
        ap (λ o. o otherwise []) (or_else-none input.dns),
      )

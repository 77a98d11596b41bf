-- ===== src/ServiceSpec/Accepted.antt =====
-- Which inputs `toServiceSpec` refuses.
use Prim.Native.String.{String}
use containerhub.Prelude.{
  ◌≡◌, refl, ap, ◌∙◌, Bool, true, false, ◌&&◌, Option, none, some, List, [], ◌∷◌, all, is_some,
  ◌otherwise◌, ◌or_else◌, Outcome, ok, throw, Fault, not, ◌>>=◌, require, traverse, arith,
}
use containerhub.Prelude.Text.{is_empty}
use containerhub.DockerSpec.{DockerServiceSpec}
use containerhub.ServiceSpec.{assembled, has_name_and_image, to_service_spec}
use containerhub.ServiceSpec.Input.{VolumeInput, PortInput, ServiceInput}
use containerhub.ServiceSpec.Parts.{
  truthy, to_mount_settings, as_service_port, to_service_port, given_or,
}

abbrev pub is_ok {ℓ} : {A : Type ℓ} → Outcome A → Bool
is_ok (ok a) = true
is_ok (throw e) = false

-- A volume with both ends.
abbrev pub whole_volume : VolumeInput → Bool
whole_volume volume =
    truthy (volume.host_volume or_else volume.source)
    && truthy (volume.container_volume or_else volume.target)

-- A port with both numbers.
abbrev pub whole_port : {N : Type 0} → PortInput N → Bool
whole_port port =
    is_some (port.host_port or_else port.published_port)
    && is_some (port.container_port or_else port.target_port)

is_ok->>= {ℓ} :
    {A B : Type ℓ} (m : Outcome A) (f : A → Outcome B) (rest : Bool)
    → ((a : A) → is_ok (f a) ≡ rest)
    → is_ok (m >>= f) ≡ (is_ok m && rest)
is_ok->>= (ok a) f rest each = each a
is_ok->>= (throw e) f rest each = refl

is_ok->>=-ok {ℓ} :
    {A B : Type ℓ} (m : Outcome A) (f : A → B) → is_ok (m >>= λ a. ok (f a)) ≡ is_ok m
is_ok->>=-ok (ok a) f = refl
is_ok->>=-ok (throw e) f = refl

is_ok-traverse {ℓ} :
    {A B : Type ℓ} (f : A → Outcome B) (test : A → Bool)
    → ((a : A) → is_ok (f a) ≡ test a)
    → (xs : List A) → is_ok (traverse f xs) ≡ all test xs
is_ok-traverse f test each [] = refl
is_ok-traverse f test each (x ∷ xs) =
    is_ok->>= (f x) _ (all test xs)
      (λ y. is_ok->>=-ok (traverse f xs) (λ ys. y ∷ ys) ∙ is_ok-traverse f test each xs)
    ∙ ap (λ b. b && all test xs) (each x)

is_ok-given_or {ℓ} :
    {A B : Type ℓ} (f : A → Outcome B) (test : A → Bool)
    → ((a : A) → is_ok (f a) ≡ test a)
    → (given : Option (List A)) (previous : Option (List B))
    → is_ok (given_or f given previous) ≡ all test (given otherwise [])
unfolding given_or
is_ok-given_or f test each none previous = refl
is_ok-given_or f test each (some xs) previous =
    is_ok->>=-ok (traverse f xs) some ∙ is_ok-traverse f test each xs

is_empty-otherwise : (o : Option String) → is_empty (o otherwise "") ≡ not (truthy o)
is_empty-otherwise none = refl
is_empty-otherwise (some s) = ground arith

is_ok-to_mount_settings : (v : VolumeInput) → is_ok (to_mount_settings v) ≡ whole_volume v
unfolding to_mount_settings
is_ok-to_mount_settings v =
    rw
      (
        is_empty-otherwise (v.host_volume or_else v.source),
        is_empty-otherwise (v.container_volume or_else v.target),
      )
      (ground arith)

is_ok-to_service_port :
    {N : Type 0} (lower : String → String) (p : PortInput N)
    → is_ok (to_service_port lower p) ≡ whole_port p
unfolding to_service_port as_service_port
is_ok-to_service_port lower p = ground arith

is_ok-require : (test : Bool) (e : Fault) → is_ok (require test e) ≡ test
is_ok-require true e = refl
is_ok-require false e = refl

-- An input is accepted exactly when it and the earlier specification name the service and its image,
-- every volume of the input has a source and a target, and every port has both numbers.
pub accepted :
    {N : Type 0} (one : N) (to_nanoseconds : N → N) (lower : String → String)
    (input : ServiceInput N) (previous : DockerServiceSpec N)
    → is_ok (to_service_spec one to_nanoseconds lower input previous) ≡ (
        has_name_and_image one to_nanoseconds lower input previous
        && (all whole_volume (input.volumes otherwise [])
            && all whole_port (input.ports otherwise [])))
unfolding to_service_spec
accepted one to_nanoseconds lower input previous =
    is_ok->>= (require (has_name_and_image one to_nanoseconds lower input previous) _) _ _ (λ _.
      is_ok->>= (given_or to_mount_settings input.volumes _) _ _ (λ mounts.
        is_ok->>=-ok (given_or (to_service_port lower) input.ports previous.endpoint_ports)
          (assembled one to_nanoseconds lower input previous mounts)
        ∙ is_ok-given_or _ whole_port (is_ok-to_service_port lower) input.ports _)
      ∙ ap (λ b. b && all whole_port (input.ports otherwise []))
          (is_ok-given_or _ whole_volume is_ok-to_mount_settings input.volumes _))
    ∙ ap
        (λ b.
          b
          && (all whole_volume (input.volumes otherwise [])
              && all whole_port (input.ports otherwise [])))
        (is_ok-require _ _)

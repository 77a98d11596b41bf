-- ===== src/ServiceSpec/Stack.antt =====
-- The stack of a service: its label, and its default network.
use Prim.Native.String.{String}
use containerhub.Prelude.{
  ◌≡◌, refl, Bool, true, some, List, [], ◌∷◌, ◌++◌, any, Bool-cases, Option-cases, none, ◌⊎◌,
  eq_refl, bind?, ◌otherwise◌, ok, arith, inl, inr,
}
use containerhub.Prelude.Text.{◌<>◌, non_empty}
use containerhub.Prelude.Dict.{lookup, lookup-insert}
use containerhub.DockerSpec.{NetworkAttachment, DockerServiceSpec}
use containerhub.ServiceSpec.{assembled, to_task_template, to_service_spec, to_service_spec-eq-ok}
use containerhub.ServiceSpec.Input.{ServiceInput}
use containerhub.ServiceSpec.Parts.{
  stack_label, is_target, add_default_network, unless_empty, given_networks, to_service_networks,
  to_service_labels, stack_of,
}

any-last {ℓ} :
    {A : Type ℓ} (p : A → Bool) (xs : List A) (x : A) → p x ≡ true → any p (xs ++ x ∷ []) ≡ true
any-last p [] x h = rw h refl
any-last p (y ∷ xs) x h = rw (any-last p xs x h) (ground arith)

add_default_network-has :
    (stack name : String) (networks : List NetworkAttachment)
    → any (is_target (stack <> "_default")) (add_default_network stack name networks) ≡ true
unfolding add_default_network
add_default_network-has stack name networks =
    elim (Bool-cases (any (is_target (stack <> "_default")) networks)) [
      | inl e ↦ rw e e
      | inr e ↦
          rw e
            (any-last (is_target (stack <> "_default")) networks _ (eq_refl (stack <> "_default")))
    ]

unless_empty-otherwise :
    (networks : List NetworkAttachment) → (unless_empty networks otherwise []) ≡ networks
unfolding unless_empty
unless_empty-otherwise [] = refl
unless_empty-otherwise (n ∷ ns) = refl

given_networks-has :
    (networks : List NetworkAttachment) (stack name : String)
    → non_empty stack ≡ true
    → any (is_target (stack <> "_default")) (given_networks networks (some stack) name otherwise [])
      ≡ true
unfolding given_networks
given_networks-has networks stack name h =
    rw (unless_empty-otherwise, h) (add_default_network-has stack name networks)

stack_labelled :
    {N : Type 0} (input : ServiceInput N) (previous : DockerServiceSpec N) (stack : String)
    → stack_of input previous.labels ≡ some stack
    → non_empty stack ≡ true
    → lookup stack_label (to_service_labels input previous.labels) ≡ some stack
unfolding to_service_labels
stack_labelled input previous stack e h = rw (e, h) (rw lookup-insert refl)

-- A service that is accepted, and belongs to a stack by its input or its labels, carries the stack's
-- name as its label; and the input gives no networks, or the stack's default network is among the
-- service's.
pub in_stack :
    {N : Type 0} (one : N) (to_nanoseconds : N → N) (lower : String → String)
    (input : ServiceInput N) (previous spec : DockerServiceSpec N) (stack : String)
    → to_service_spec one to_nanoseconds lower input previous ≡ ok spec
    → stack_of input previous.labels ≡ some stack
    → non_empty stack ≡ true
    → (bind? spec.labels (lookup stack_label) ≡ some stack)
      × ((input.networks ≡ none)
          ⊎ (any
                (is_target (stack <> "_default"))
                (bind? spec.task_template (λ t. t.networks) otherwise [])
              ≡ true))
unfolding assembled to_task_template to_service_networks stack_of
in_stack one to_nanoseconds lower input previous spec stack e s h =
    let (mounts, ports, _, _, _, same) =
      to_service_spec-eq-ok one to_nanoseconds lower input previous spec e in
    rw same (
      stack_labelled input previous stack s h,
      elim (Option-cases input.networks) [
        | inl n ↦ inl n
        | inr (networks, n) ↦ inr (rw (n, s) (given_networks-has _ stack _ h))
      ],
    )

-- ===== src/ServiceLifecycle/Audits.antt =====
-- ServiceService.ts: what the audit log keeps of the creations and updates of services.
use Prim.Native.String.{String}
use containerhub.Prelude.{
  ℕ, ◌≡◌, refl, sym, ap, ◌∙◌, Bool, true, Option, none, some, List, [], ◌∷◌, ◌++◌, ◌otherwise◌,
  ◌or_else◌, Outcome, ok, throw, Bool-cases, inl, inr,
}
use mathlib.Core.List.{append-nil}
use containerhub.Prelude.Text.{non_empty}
use containerhub.DockerSpec.{DockerServiceSpec}
use containerhub.ServiceSpec.Input.{ServiceInput}
use containerhub.ServiceSpec.{empty_spec}
use containerhub.ServiceModel.Shape.{DockerServiceItem, ServiceModel}
use containerhub.ServiceMutations.{Site, at_site, and_then, register_service_mutation}
use containerhub.ServiceLifecycle.{
  DockerHost, or_create, get_or_create_network, ensure_service_networks, find_service_by_id,
  is_docker_not_found, network_of_stack, stack_label_of, network_targets, create_service, put_spec,
  with_item, update_service,
}

-- The entry that a call adds: one if it went well.
abbrev pub entry : {A : Type 0} → (A → String × String) → Outcome A → List (String × String)
entry of_result (ok a) = of_result a ∷ []
entry of_result (throw fault) = []

module _ {W : Type 0} where
  at_site-audits :
      {A : Type 0} (site : Site W) (r : Outcome A × W) → (at_site site r).1.audits ≡ site.audits
  at_site-audits site (outcome, world) = refl

  -- The log of a call that may throw, from a log that it found.
  abbrev Logged :
      {A : Type 0} → (A → String × String) → List (String × String) → Outcome A × Site W → Type 0
  Logged of_result audits (outcome, site) = site.audits ≡ audits ++ entry of_result outcome

  chain :
      {A B : Type 0} (of_result : B → String × String) (audits : List (String × String))
      (r : Outcome A × Site W) (next : A → Site W → Outcome B × Site W)
      → r.1.audits ≡ audits
      → ((a : A) (s : Site W) → s.audits ≡ audits → Logged of_result audits (next a s))
      → Logged of_result audits (and_then r next)
  chain of_result audits (ok a, s) next h k = k a s h
  chain of_result audits (throw fault, s) next h k = h ∙ sym (append-nil audits)

  -- A chain of calls that leave the log as it is.
  chain-audits :
      {A B : Type 0} (audits : List (String × String)) (r : Outcome A × Site W)
      (next : A → Site W → Outcome B × Site W)
      → r.1.audits ≡ audits
      → ((a : A) (s : Site W) → s.audits ≡ audits → (next a s).1.audits ≡ audits)
      → (and_then r next).1.audits ≡ audits
  chain-audits audits (ok a, s) next h k = k a s h
  chain-audits audits (throw fault, s) next h k = h

  abbrev pub always : String → String → Site W → Bool
  always action service_id site = true

abbrev pub as_created : {N : Type 0} → ServiceModel N → String × String
as_created model = ("CREATE", model.id)

abbrev pub as_updated : {N : Type 0} → String → ServiceModel N → String × String
as_updated id model = ("UPDATE", id)

module _ {W N : Type 0} (docker : DockerHost W N) where
  or_create-audits :
      (network : String) (stack : Option String) (audits : List (String × String))
      (r : Outcome _ × Site W)
      → r.1.audits ≡ audits
      → (or_create docker network stack r).1.audits ≡ audits
  or_create-audits network stack audits (ok found, s) h = h
  or_create-audits network stack audits (throw fault, s) h =
      elim (Bool-cases (is_docker_not_found fault)) [
        | inl missing ↦
            rw missing
              (at_site-audits s (docker.post_network (network_of_stack network stack) s.world) ∙ h)
        | inr other ↦ rw other h
      ]

  ensure_service_networks-audits :
      (targets : List (Option String)) (stack : Option String) (audits : List (String × String))
      (site : Site W)
      → site.audits ≡ audits
      → (ensure_service_networks docker targets stack site).1.audits ≡ audits
  unfolding ensure_service_networks get_or_create_network
  ensure_service_networks-audits [] stack audits site h = h
  ensure_service_networks-audits (t ∷ ts) stack audits site h =
      elim (Bool-cases (non_empty (t otherwise ""))) [
        | inl named ↦ rw named (
            chain-audits audits (get_or_create_network docker (t otherwise "") stack site) _
              (or_create-audits (t otherwise "") stack audits
                (at_site site (docker.get_network (t otherwise "") site.world))
                (at_site-audits site (docker.get_network (t otherwise "") site.world) ∙ h))
              (λ a s k. ensure_service_networks-audits ts stack audits s k))
        | inr nameless ↦ rw nameless (ensure_service_networks-audits ts stack audits site h)
      ]

  module _ (model_of_item : DockerServiceItem N → Outcome (ServiceModel N)) where
    find_service_by_id-audits :
        (id : String) (site : Site W)
        → (find_service_by_id docker model_of_item id site).1.audits ≡ site.audits
    unfolding find_service_by_id
    find_service_by_id-audits id site =
        chain-audits site.audits (at_site site (docker.inspect_service id site.world)) _
          (at_site-audits site (docker.inspect_service id site.world)) (λ a s k. k)

    -- The last two calls: the service is read again, and the entry is written.
    read_and_log :
        (action id : String) (id_of : ServiceModel N → String) (audits : List (String × String))
        (s : Site W)
        → s.audits ≡ audits
        → Logged
            (λ m. (action, id_of m))
            audits
            (and_then
              (find_service_by_id docker model_of_item id s)
              (λ m read. (ok m, register_service_mutation always action (id_of m) read)))
    unfolding register_service_mutation
    read_and_log action id id_of audits s h =
        chain (λ m. (action, id_of m)) audits (find_service_by_id docker model_of_item id s) _
          (find_service_by_id-audits id s ∙ h)
          (λ m read k. ap (λ (log : List (String × String)). log ++ (action, id_of m) ∷ []) k)

    module _ {Raw : Type 0} (validate : Raw → Outcome (ServiceInput N))
        (spec_of : ServiceInput N → DockerServiceSpec N → Outcome (DockerServiceSpec N)) where
      create-Logged :
          (raw : Raw) (site : Site W)
          → Logged as_created site.audits
              (create_service docker model_of_item validate spec_of always raw site)
      unfolding create_service
      create-Logged raw site =
          chain as_created site.audits (validate raw, site) _ refl
            λ input _ _.
              chain as_created site.audits (spec_of input empty_spec, site) _ refl
                λ spec _ _.
                  chain as_created site.audits
                    (ensure_service_networks docker (network_targets spec) input.stack site) _
                    (ensure_service_networks-audits (network_targets spec) input.stack site.audits
                      site refl)
                    λ _ joined k.
                      chain as_created site.audits
                        (at_site joined (docker.post_service spec joined.world)) _
                        (at_site-audits joined (docker.post_service spec joined.world) ∙ k)
                        λ id posted k'. read_and_log "CREATE" id (λ m. m.id) site.audits posted k'

      put_spec-Logged :
          (id : String) (input : ServiceInput N) (item : DockerServiceItem N × ℕ)
          (audits : List (String × String)) (site : Site W)
          → site.audits ≡ audits
          → Logged
              (as_updated id)
              audits
              (put_spec docker model_of_item validate spec_of always id input item site)
      unfolding put_spec
      put_spec-Logged id input (item, version) audits site h =
          let current = item.spec otherwise empty_spec in
          let stack = input.stack or_else stack_label_of current.labels in
          chain (as_updated id) audits (spec_of input current, site) _ h
            λ spec _ _.
              chain (as_updated id) audits
                (ensure_service_networks docker (network_targets spec) stack site) _
                (ensure_service_networks-audits (network_targets spec) stack audits site h)
                λ _ joined k.
                  chain (as_updated id) audits
                    (at_site joined (docker.put_service id spec version joined.world)) _
                    (at_site-audits joined (docker.put_service id spec version joined.world) ∙ k)
                    λ _ put k'. read_and_log "UPDATE" id (λ _. id) audits put k'

      with_item-Logged :
          (id : String) (input : ServiceInput N) (found : Option (DockerServiceItem N × ℕ))
          (audits : List (String × String)) (site : Site W)
          → site.audits ≡ audits
          → Logged (as_updated id) audits (
              with_item docker model_of_item validate spec_of always
                (put_spec docker model_of_item validate spec_of always id input)
                found
                site)
      with_item-Logged id input none audits site h = h ∙ sym (append-nil audits)
      with_item-Logged id input (some item) audits site h =
          put_spec-Logged id input item audits site h

      update-Logged :
          (id : String) (raw : Raw) (site : Site W)
          → Logged
              (as_updated id)
              site.audits
              (update_service docker model_of_item validate spec_of always id raw site)
      unfolding update_service
      update-Logged id raw site =
          chain (as_updated id) site.audits (validate raw, site) _ refl
            λ input _ _.
              chain (as_updated id) site.audits
                (at_site site (docker.inspect_service id site.world)) _
                (at_site-audits site (docker.inspect_service id site.world))
                λ found seen k. with_item-Logged id input found site.audits seen k

-- While the audit log can be written, a creation and an update of a service add exactly one entry to
-- it if they go well, with the id of the service, and none if they end in an error, at whichever call
-- of Docker or of the checks; the entries before stay as they are.
pub lifecycle-audits :
    {W N Raw : Type 0} (docker : DockerHost W N)
    (model_of_item : DockerServiceItem N → Outcome (ServiceModel N))
    (validate : Raw → Outcome (ServiceInput N))
    (spec_of : ServiceInput N → DockerServiceSpec N → Outcome (DockerServiceSpec N)) (id : String)
    (raw : Raw) (site : Site W)
    → let created = create_service docker model_of_item validate spec_of always raw site in
      let updated = update_service docker model_of_item validate spec_of always id raw site in
      (created.1.audits ≡ site.audits ++ entry as_created created.0)
      × (updated.1.audits ≡ site.audits ++ entry (as_updated id) updated.0)
lifecycle-audits docker model_of_item validate spec_of id raw site = (
  create-Logged docker model_of_item validate spec_of raw site,
  update-Logged docker model_of_item validate spec_of id raw site,
)

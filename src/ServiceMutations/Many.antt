-- ===== src/ServiceMutations/Many.antt =====
-- Many services at once: each is tried, in order, and the audit log tells which calls went well.
use Prim.Native.String.{String}
use mathlib.Core.List.{append_assoc, append-nil}
use containerhub.Prelude.{
  ◌+◌, ◌≡◌, refl, sym, ap, ap₂, ◌∙◌, Bool, true, Option, some, List, [], ◌∷◌, ◌++◌, map,
  if◌then◌else◌, ◌otherwise◌, Outcome, ok, throw,
}
use containerhub.Prelude.Text.{◌<>◌}
use containerhub.ServiceMutations.{
  DockerClient, Inspected, Site, ServiceRestartResult, ServiceRemoveResult, as_service_id_array,
  at_site, and_then, register_service_mutation, docker_restart, restart_result, restart_each,
  docker_restart_many, docker_remove, remove_result, remove_each, docker_remove_many,
}

-- The entry of a call that went well.
abbrev pub entry : (action service_id : String) → Bool → List (String × String)
entry action service_id success = if success then (action, service_id) ∷ [] else []

abbrev pub restart_audits : List ServiceRestartResult → List (String × String)
restart_audits [] = []
restart_audits (result ∷ results) =
    entry "RESTART" result.service_id result.success ++ restart_audits results

abbrev pub remove_audits : List ServiceRemoveResult → List (String × String)
remove_audits [] = []
remove_audits (result ∷ results) =
    entry "DELETE" result.service_id result.success ++ remove_audits results

module _ {W R : Type 0} (docker : DockerClient W R) where
  abbrev pub always : String → String → Site W → Bool
  always _ _ _ = true

  restart-audits :
      (service_id : String) (site : Site W)
      → let called = docker_restart docker always service_id site in
        called.1.audits
        ≡ site.audits
          ++ entry "RESTART" service_id (restart_result docker always service_id called.0).success
  unfolding docker_restart register_service_mutation
  restart-audits service_id site = inspected (docker.inspect service_id site.world)
    where
      updated :
          (answer : Outcome (Option (List String)) × W)
          → let called = and_then (at_site site answer) (λ warnings after. (
            ok (warnings otherwise []),
            register_service_mutation always "RESTART" service_id after,
          )) in
            called.1.audits
            ≡ site.audits
              ++ entry "RESTART" service_id
                  (restart_result docker always service_id called.0).success
      updated (ok warnings, world) = refl
      updated (throw fault, world) = sym (append-nil site.audits)

      inspected :
          (answer : Outcome (Inspected R) × W)
          → let called = and_then (at_site site answer) (λ seen after.
            and_then
              (at_site after (
                docker.update service_id
                  (record seen.spec {
                    force_update = some ((seen.spec.force_update otherwise 0) + 1);
                  })
                  (seen.version otherwise 0)
                  after.world))
              (λ warnings updated. (
                ok (warnings otherwise []),
                register_service_mutation always "RESTART" service_id updated,
              ))) in
            called.1.audits
            ≡ site.audits
              ++ entry "RESTART" service_id
                  (restart_result docker always service_id called.0).success
      inspected (ok seen, world) = updated _
      inspected (throw fault, world) = sym (append-nil site.audits)

  restart-named :
      (service_id : String) (outcome : Outcome (List String))
      → (restart_result docker always service_id outcome).service_id ≡ service_id
  restart-named service_id (ok warnings) = refl
  restart-named service_id (throw fault) = refl

  restart_each-audits :
      (ids : List String) (site : Site W)
      → let called = restart_each docker always ids site in
        (map (λ result. result.service_id) called.0 ≡ ids)
        × (called.1.audits ≡ site.audits ++ restart_audits called.0)
  unfolding restart_each
  restart_each-audits [] site = (refl, sym (append-nil site.audits))
  restart_each-audits (service_id ∷ ids) site =
      let called = docker_restart docker always service_id site in
      let (named, logged) = restart_each-audits ids called.1 in
      (
        ap₂ ◌∷◌ (restart-named service_id called.0) named,
        logged
            ∙ ap (λ before. before ++ restart_audits (restart_each docker always ids called.1).0)
                (restart-audits service_id site)
            ∙ rw (restart-named service_id called.0) (append_assoc site.audits _ _),
      )

  -- While the audit log can be written, a restart of many services with valid ids does not throw: it
  -- gives one result for each id, in order, and the log gains one entry for each that went well.
  pub restart_many-audits :
      (service_ids : Option (List (Option String))) (ids : List String) (site : Site W)
      → as_service_id_array service_ids ≡ ok ids
      → (results : List ServiceRestartResult) × (after : Site W) × (docker_restart_many docker
            always service_ids site
          ≡ (ok results, after))
        × (map (λ result. result.service_id) results ≡ ids)
        × (after.audits ≡ site.audits ++ restart_audits results)
  unfolding docker_restart_many
  restart_many-audits service_ids ids site e =
      let called = restart_each docker always ids site in
      let (named, logged) = restart_each-audits ids site in
      (called.0, called.1, rw e refl, named, logged)

  remove-audits :
      (service_id : String) (site : Site W)
      → let called = docker_remove docker always service_id site in
        called.1.audits
        ≡ site.audits
          ++ entry "DELETE" service_id (remove_result docker always service_id called.0).success
  unfolding docker_remove register_service_mutation
  remove-audits service_id site = removed (docker.remove service_id site.world)
    where
      removed :
          (answer : Outcome (Unit {0}) × W)
          → let called = and_then (at_site site answer) (λ _ after. (
            ok ("Service " <> service_id <> " removed"),
            register_service_mutation always "DELETE" service_id after,
          )) in
            called.1.audits
            ≡ site.audits
              ++ entry "DELETE" service_id (remove_result docker always service_id called.0).success
      removed (ok _, world) = refl
      removed (throw fault, world) = sym (append-nil site.audits)

  remove-named :
      (service_id : String) (outcome : Outcome String)
      → (remove_result docker always service_id outcome).service_id ≡ service_id
  remove-named service_id (ok message) = refl
  remove-named service_id (throw fault) = refl

  remove_each-audits :
      (ids : List String) (site : Site W)
      → let called = remove_each docker always ids site in
        (map (λ result. result.service_id) called.0 ≡ ids)
        × (called.1.audits ≡ site.audits ++ remove_audits called.0)
  unfolding remove_each
  remove_each-audits [] site = (refl, sym (append-nil site.audits))
  remove_each-audits (service_id ∷ ids) site =
      let called = docker_remove docker always service_id site in
      let (named, logged) = remove_each-audits ids called.1 in
      (
        ap₂ ◌∷◌ (remove-named service_id called.0) named,
        logged
            ∙ ap (λ before. before ++ remove_audits (remove_each docker always ids called.1).0)
                (remove-audits service_id site)
            ∙ rw (remove-named service_id called.0) (append_assoc site.audits _ _),
      )

  -- While the audit log can be written, a removal of many services with valid ids does not throw: it
  -- gives one result for each id, in order, and the log gains one entry for each that went well.
  remove_many-audits :
      (service_ids : Option (List (Option String))) (ids : List String) (site : Site W)
      → as_service_id_array service_ids ≡ ok ids
      → (results : List ServiceRemoveResult) × (after : Site W) × (docker_remove_many docker always
            service_ids site
          ≡ (ok results, after))
        × (map (λ result. result.service_id) results ≡ ids)
        × (after.audits ≡ site.audits ++ remove_audits results)
  unfolding docker_remove_many
  remove_many-audits service_ids ids site e =
      let called = remove_each docker always ids site in
      let (named, logged) = remove_each-audits ids site in
      (called.0, called.1, rw e refl, named, logged)

-- ===== src/Sources/Progress/Updates.antt =====
-- A new release in a remote registry gets to the datastore: a round of polling
-- (pkg/operatorsource/poller.go) sends the source to Purging, and the controller's Reconcile brings
-- it back to Succeeded with what the registry lists.
use mathlib.Core.Path.{subst}
use operator_marketplace.Common.{
  true, String, ◌≡◌, refl, sym, ap, ◌∙◌, false, none, some, List, [], ◌∷◌, ◌&&◌, eq_refl,
}
use operator_marketplace.Common.Errors.{ok}
use operator_marketplace.Api.Meta.{NamespacedName}
use operator_marketplace.Api.OperatorSource.{OperatorSource}
use operator_marketplace.Phase.{succeeded, purging}
use operator_marketplace.Common.Maps.{lookup}
use operator_marketplace.Datastore.{Datastore, write, get_operator_source, get_all_operator_sources}
use operator_marketplace.Datastore.Metadata.{RegistryMetadata, OperatorSourceKey, OperatorSourceRow}
use operator_marketplace.Datastore.Rows.{get_row, get_all_rows}
use operator_marketplace.Datastore.Update.{UpdateResult, new_package_update_aggregator, add_result}
use operator_marketplace.Datastore.HasUpdate.{operator_source_has_update}
use operator_marketplace.Datastore.Verdict.{
  all_current, all_listed, AllReleased, has_update_verdict,
}
use operator_marketplace.Datastore.Synced.{UniqueNames, write-no_update}
use operator_marketplace.AppRegistry.{metadata_of, new_client, list_packages, namespace_param}
use operator_marketplace.Cluster.{Environment, Options}
use operator_marketplace.Sources.World.{World, setup_app_registry_options}
use operator_marketplace.Sources.Handler.{Outcome, returned, reconcile_request}
use operator_marketplace.Sources.Poller.{idle, send_notification, has_update, poll_sources, poll}
use operator_marketplace.Sources.Progress.{IsHealthy}
use operator_marketplace.Sources.Progress.Phases.{IsPublic, IsAt}
use operator_marketplace.Sources.Progress.Arrival.{
  four_requests, reaches_succeeded, IsWritten, four_requests-IsWritten,
}
use operator_marketplace.Sources.Progress.Purges.{IsUpdatable, from_purging, trigger_purge-update}

module _ {E : Environment} {request : NamespacedName} (H : IsHealthy E request) where
  -- The comparison of a public source: nothing but the listing changes the cluster.
  compares :
      (key : OperatorSourceKey) (rest : List OperatorSourceKey) (w : World E)
      (ms : List RegistryMetadata) (r : UpdateResult)
      → IsPublic E key.spec
      → metadata_of (H.first ∷ H.others) ≡ ok ms
      → get_operator_source key.uid w.store ≡ some key
      → (operator_source_has_update key.uid ms w.store).0 ≡ some r
      → has_update E (idle E rest) key w ≡ (
        ok (some r),
        record w {
          cluster =
              (E.list_packages
                (record { source = key.spec.endpoint; auth_token = "" })
                (namespace_param key.spec.registry_namespace)
                w.cluster).1;
        },
      )
  unfolding has_update setup_app_registry_options new_client list_packages
  compares key rest w ms r public listing stored verdict =
      let options : Options = record { source = key.spec.endpoint; auth_token = "" } in
      rw (stored, public.no_secret, public.url, new_client)
        (rw
          (
            H.list_ok options (namespace_param key.spec.registry_namespace) w.cluster,
            listing,
            verdict,
          )
          refl)

abbrev pub five_requests :
    (E : Environment) (request : NamespacedName) → World E → List Outcome × World E
five_requests E request w =
    let (a, w₁) = reconcile_request E request w in
    let (rest, w₂) = four_requests E request w₁ in (a ∷ rest, w₂)

-- A comparison with the listing ends with no error and says that there is no update.
abbrev pub IsCurrent : String → List RegistryMetadata → Datastore → Type 0
IsCurrent uid ms ds =
    (r : UpdateResult) × (operator_source_has_update uid ms ds ≡ (some r, none))
    × (r.registry_has_update ≡ false)

module _ {E : Environment} {request : NamespacedName} (H : IsHealthy E request) (K : IsUpdatable H)
    (row : OperatorSourceRow) (w : World E) (ms : List RegistryMetadata)
    (only : w.store ≡ record { rows = (row.key.uid, row) ∷ [] }) (public : IsPublic E row.key.spec)
    (listing : metadata_of (H.first ∷ H.others) ≡ ok ms) (released : AllReleased ms) where
  pub only_row : get_row row.key.uid w.store.rows ≡ some row
  unfolding get_row lookup
  only_row = ap (λ ds. get_row row.key.uid ds.rows) only ∙ rw (eq_refl row.key.uid) refl

  only_source : get_all_operator_sources w.store ≡ row.key ∷ []
  unfolding get_all_operator_sources get_all_rows
  only_source = ap get_all_operator_sources only ∙ refl

  only_key : get_operator_source row.key.uid w.store ≡ some row.key
  unfolding get_operator_source
  only_key = rw (only_row, get_operator_source) refl

  -- A round of polling that finds an update writes the source once, in Purging, and ends with a
  -- notification of the update's packages, if it lists any.
  pub poll-update :
      (r : UpdateResult)
      → row.key.name ≡ request
      → IsAt H row.key.uid row.key.spec succeeded w
      → operator_source_has_update row.key.uid ms w.store ≡ (some r, none)
      → r.registry_has_update ≡ true
      → let options : Options = record { source = row.key.spec.endpoint; auth_token = "" } in
        let s =
          (E.list_packages options (namespace_param row.key.spec.registry_namespace) w.cluster).1 in
        (changed : OperatorSource) × (poll E (idle E) w ≡ (
          send_notification E (add_result r new_package_update_aggregator),
          record w { cluster = (E.sources.update changed s).1 },
        ))
        × IsAt H row.key.uid row.key.spec purging
            (record w { cluster = (E.sources.update changed s).1 })
  unfolding poll poll_sources
  poll-update r named a done says =
      let options : Options = record { source = row.key.spec.endpoint; auth_token = "" } in
      let parameter = namespace_param row.key.spec.registry_namespace in
      let listed : World E = record w {
        cluster = (E.list_packages options parameter w.cluster).1;
      } in
      let compared = compares H row.key [] w ms r public listing only_key (ap (λ p. p.0) done) in
      let at : IsAt H row.key.uid row.key.spec succeeded listed = record {
        object = a.object;
        held = K.list_held options parameter w.cluster ∙ a.held;
        here = a.here;
        live = a.live;
        same_uid = a.same_uid;
        same_spec = a.same_spec;
      } in
      let (changed, purged, purging_at) =
        trigger_purge-update H K row.key.uid row.key.spec succeeded listed row.key refl named at in
      (
        changed,
        rw (only_source, poll_sources)
            (rw compared (
              rw says (
                ap
                  (λ t. (
                    send_notification E (
                        add_result (record r { registry_has_update = true })
                          new_package_update_aggregator),
                    record w { cluster = t.1 },
                  ))
                  purged))),
        purging_at,
      )

  written-IsCurrent :
      (w' : World E) (o : OperatorSource)
      → o.meta.uid ≡ row.key.uid
      → UniqueNames ms
      → IsWritten H ms listing o.meta.uid w'.store
      → IsCurrent row.key.uid ms w'.store
  written-IsCurrent w' o same unique (writer, before, uid, e) =
      subst (λ ds. IsCurrent row.key.uid ms ds) (sym e)
        (subst (λ u. IsCurrent u ms (write (some writer) (some ms) before).1) (uid ∙ same)
          (write-no_update writer ms before released unique))

  -- In a healthy cluster in which configs can be deleted and a listing does not change the source, a
  -- datastore that holds one row, of a source in Succeeded which is not being deleted, has a URL as
  -- endpoint and names no secret: if the row differs from what the registry lists, each repository
  -- once and with a release, then after one round of polling, during which no other goroutine
  -- changes the datastore or the cluster, and five calls of the controller's Reconcile, none of which
  -- returns an error, the source is in Succeeded again, and a comparison of
  -- the datastore with the list ends with no error and finds no update.
  pub new_release_arrives :
      row.key.name ≡ request
      → IsAt H row.key.uid row.key.spec succeeded w
      → (all_current row ms && all_listed ms row.repositories) ≡ false
      → UniqueNames ms
      → let (outcomes, w') = five_requests E request (poll E (idle E) w).1 in
        (outcomes
          ≡ returned none ∷ returned none ∷ returned none ∷ returned none ∷ returned none ∷ [])
        × IsAt H row.key.uid row.key.spec succeeded w'
        × IsCurrent row.key.uid ms w'.store
  new_release_arrives named a differs unique =
      let (r, done, says, _) = has_update_verdict ms row.key.uid w.store row only_row released in
      let (changed, polled, moved_at) = poll-update r named a done (says ∙ rw differs refl) in
      let purging_at : IsAt H row.key.uid row.key.spec purging (poll E (idle E) w).1 =
        subst (λ x. IsAt H row.key.uid row.key.spec purging x.1) (sym polled) moved_at in
      let (purged, initial_at) =
        from_purging H K row.key.uid row.key.spec (poll E (idle E) w).1 purging_at in
      let w₁ = (reconcile_request E request (poll E (idle E) w).1).1 in
      let o = initial_at.object in
      let open_to_all = subst (IsPublic E) (sym initial_at.same_spec) public in
      let (outcomes, at, known) =
        reaches_succeeded E request H w₁ o initial_at.held initial_at.here initial_at.live
          open_to_all in
      (
        rw (purged, outcomes) refl,
        record {
          object = at.object;
          held = at.held;
          here = at.here;
          live = at.live;
          same_uid = at.same_uid ∙ initial_at.same_uid;
          same_spec = at.same_spec ∙ initial_at.same_spec;
        },
        written-IsCurrent (four_requests E request w₁).1 o initial_at.same_uid unique (
            four_requests-IsWritten H ms listing w₁ o initial_at.held initial_at.here
              initial_at.live open_to_all),
      )

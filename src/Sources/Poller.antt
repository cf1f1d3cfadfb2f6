-- ===== src/Sources/Poller.antt =====
-- poller.go and pollhelper.go of pkg/operatorsource: one round of polling the remote registries of
-- all operator sources. The datastore is locked for each of its methods and not for the round: what
-- the other goroutines do before each read of it is a parameter.
pub mod Races
pub mod Rounds
pub mod Purges
pub mod Notices
use operator_marketplace.Common.{
  String, Bool, true, false, not, Option, none, some, List, [], ◌∷◌, if◌then◌else◌,
}
use operator_marketplace.Common.Errors.{Error, Result, ok, err, new_error, is_not_found}
use operator_marketplace.Common.Effects.{Eff, ◌>>=◌, pure}
use operator_marketplace.Api.Meta.{ObjectPhase}
use operator_marketplace.Api.OperatorSource.{OperatorSource, ensure_source_gvk}
use operator_marketplace.Phase.{purging}
use operator_marketplace.Phase.Transitioner.{transition_into}
use operator_marketplace.Datastore.{get_operator_source, get_all_operator_sources}
use operator_marketplace.Datastore.Metadata.{OperatorSourceKey, RegistryMetadata}
use operator_marketplace.Datastore.Update.{
  UpdateResult, PackageUpdateAggregator, new_package_update_aggregator, add_result,
  is_updated_or_removed,
}
use operator_marketplace.Datastore.HasUpdate.{operator_source_has_update}
use operator_marketplace.AppRegistry.{new_client, list_packages}
use operator_marketplace.Cluster.{Environment, Options}
use operator_marketplace.Sources.World.{
  World, Action, outside, from_store, setup_app_registry_options,
}

-- How a round ends: with the notification that is sent, if any, or by reading a field through a nil
-- result.
pub data Round : Type 0 where
  sent : Option PackageUpdateAggregator → Round
  round_panicked : Round

module _ (E : Environment) where
  -- What the other goroutines do during one HasUpdate: before it reads the source from the datastore,
  -- and after that until it compares.
  pub record Meanwhile : Type 0 where
    pub before_get : World E → World E
    pub before_compare : World E → World E

  -- What they do during a round, for each place in its loop: by the sources still to come.
  abbrev pub OtherGoroutines : Type 0
  OtherGoroutines = List OperatorSourceKey → Meanwhile

  abbrev pub idle : OtherGoroutines
  idle rest = record { before_get = λ w. w; before_compare = λ w. w }

  abbrev pub after : {A : Type 0} → (World E → World E) → Action E A → Action E A
  after change next w = next (change w)

  -- The error of OperatorSourceHasUpdate is dropped; its result may be nil.
  module _ (meanwhile : Meanwhile) where
    abbrev pub compared :
        OperatorSourceKey → Result (List RegistryMetadata) → Action E (Result (Option UpdateResult))
    compared source (err e) = pure (err e)
    compared source (ok metadata) =
        after meanwhile.before_compare
          (from_store E (λ ds. ok (operator_source_has_update source.uid metadata ds).0))

    abbrev pub listed_by :
        OperatorSourceKey → Result Options → Action E (Result (Option UpdateResult))
    listed_by source (err e) = pure (err e)
    listed_by source (ok registry) = do
      metadata ← outside E (list_packages E registry source.spec.registry_namespace)
      compared source metadata

    abbrev pub connected :
        OperatorSourceKey → Result Options → Action E (Result (Option UpdateResult))
    connected source (err e) = pure (err e)
    connected source (ok options) = listed_by source (new_client E options)

    abbrev pub of_stored : Option OperatorSourceKey → Action E (Result (Option UpdateResult))
    of_stored none =
        pure (err (new_error "The given OperatorSource object does not exist in datastore"))
    of_stored (some source) = do
      options ← outside E (setup_app_registry_options E source.spec source.name.namespace)
      connected source options

    unfoldable pub has_update : OperatorSourceKey → Action E (Result (Option UpdateResult))
    has_update source = do
      stored ← after meanwhile.before_get (from_store E (get_operator_source source.uid))
      of_stored stored

  purge_instance : OperatorSource → Option ObjectPhase × Bool → Eff E.State (Bool × Option Error)
  purge_instance o (phase, false) = pure (false, none)
  purge_instance o (none, true) = pure (false, none)
  purge_instance o (some phase, true) = do
    error ← E.sources.update (record o { status = record (o.status) { current_phase = phase } })
    pure (false, error)

  purge_fetched : Result OperatorSource → Eff E.State (Bool × Option Error)
  unfolding purge_instance
  purge_fetched (err e) s = (if is_not_found e then (true, none) else (false, some e), s)
  purge_fetched (ok instance_) s =
      let o = ensure_source_gvk instance_ in
      purge_instance o
        (transition_into (E.now s) (some o.status.current_phase)
          (some (record { name = purging; message = "Remote registry has been updated" })))
        s

  -- TriggerPurge: whether the object has been deleted, and the error.
  unfoldable pub trigger_purge : OperatorSourceKey → Eff E.State (Bool × Option Error)
  unfolding purge_fetched
  trigger_purge source = do fetched ← E.sources.get source.name; purge_fetched fetched

  -- After the loop: the notification is sent if it lists a package.
  unfoldable pub send_notification : PackageUpdateAggregator → Round
  unfolding is_updated_or_removed
  send_notification aggregator =
      if not (is_updated_or_removed aggregator) then sent none else sent (some aggregator)

  -- The body of the loop, `continue` being the rest of it. Errors are only logged.
  abbrev pub poll_source :
      OperatorSourceKey
      → PackageUpdateAggregator
      → (PackageUpdateAggregator → Action E Round)
      → Result (Option UpdateResult)
      → Action E Round
  poll_source source aggregator continue (err e) = continue aggregator
  poll_source source aggregator continue (ok none) = pure round_panicked
  poll_source source aggregator continue (ok (some result)) =
      if not result.registry_has_update
      then continue aggregator
      else do purged ← outside E (trigger_purge source); continue (add_result result aggregator)

  module _ (others : OtherGoroutines) where
    unfoldable pub poll_sources : List OperatorSourceKey → PackageUpdateAggregator → Action E Round
    unfolding send_notification
    poll_sources [] aggregator = pure (send_notification aggregator)
    poll_sources (source ∷ rest) aggregator =
        let continue = poll_sources rest in
        do result ← has_update (others rest) source; poll_source source aggregator continue result

    unfoldable pub poll : Action E Round
    unfolding poll_sources new_package_update_aggregator
    poll = do
      sources ← from_store E get_all_operator_sources
      poll_sources sources new_package_update_aggregator

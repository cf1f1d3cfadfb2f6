-- ===== src/Sources/Poller/Rounds.antt =====
-- What a round of polling (pkg/operatorsource/poller.go) leaves of the datastore, and when it does not
-- panic, whatever the other goroutines do while it runs.
use mathlib.Core.Path.{subst}
use operator_marketplace.Common.{
  String, ◌≡◌, refl, sym, ap, ◌∙◌, ◌≢◌, Option, none, some, List, [], ◌∷◌, arith, Bool-cases,
  Option-cases, inl, inr,
}
use operator_marketplace.Common.Errors.{Result, ok, err}
use operator_marketplace.Datastore.{Datastore, get_operator_source, get_all_operator_sources}
use operator_marketplace.Datastore.Metadata.{OperatorSourceKey, OperatorSourceRow, RegistryMetadata}
use operator_marketplace.Datastore.Invariant.{IsValid, IsValidRow}
use operator_marketplace.Datastore.Rows.{get_row}
use operator_marketplace.Datastore.Update.{
  UpdateResult, PackageUpdateAggregator, new_package_update_aggregator,
}
use operator_marketplace.Common.Maps.{lookup, All-lookup}
use operator_marketplace.Cluster.{Environment, Options}
use operator_marketplace.Sources.World.{World, outside, setup_app_registry_options}
use operator_marketplace.AppRegistry.{new_client, list_packages}
use operator_marketplace.Sources.Poller.{
  Round, round_panicked, Meanwhile, OtherGoroutines, compared, listed_by, connected, of_stored,
  has_update, send_notification, poll_source, poll_sources, poll,
}
use operator_marketplace.Sources.Poller.Races.{has_update-nil_iff}

-- The key that a well-formed datastore gives for a UID has that UID.
stored_key :
    (uid : String) (ds : Datastore) (key : OperatorSourceKey)
    → IsValid ds
    → get_operator_source uid ds ≡ some key
    → (row : OperatorSourceRow) × (get_row key.uid ds.rows ≡ some row)
unfolding get_operator_source get_row
stored_key uid ds key v h = elim (Option-cases (lookup uid ds.rows)) [
  | inl e ↦ absurd (none_is_some e)
  | inr (row, e) ↦ (
    row,
    subst (λ k. lookup k ds.rows ≡ some row)
        (sym (All-lookup IsValidRow uid row ds.rows v.valid e).keyed
          ∙ ap (λ k. k.uid) (same_key row e))
        e,
  )
]
  where
    none_is_some : lookup uid ds.rows ≡ none → ⊥
    none_is_some e = ground arith

    same_key : (row : OperatorSourceRow) → lookup uid ds.rows ≡ some row → row.key ≡ key
    same_key row e = ground arith

module _ (E : Environment) where
  abbrev pub KeepsValid : (World E → World E) → Type 0
  KeepsValid change = (w : World E) → IsValid w.store → IsValid (change w).store

  -- The other goroutines keep the datastore well-formed.
  abbrev pub KeepValid : OtherGoroutines E → Type 0
  KeepValid others =
      (rest : List OperatorSourceKey)
      → KeepsValid (others rest).before_get × KeepsValid (others rest).before_compare

  -- No row that HasUpdate may have found goes away until it compares.
  abbrev pub KeepRows : OtherGoroutines E → Type 0
  KeepRows others =
      (rest : List OperatorSourceKey) (w : World E) (uid : String) (row : OperatorSourceRow)
      → get_row uid w.store.rows ≡ some row
      → get_row uid ((others rest).before_compare w).store.rows ≢ none

  module _ (meanwhile : Meanwhile E) (get : KeepsValid meanwhile.before_get)
      (compare : KeepsValid meanwhile.before_compare) where
    compared-IsValid :
        (key : OperatorSourceKey) (r : Result (List RegistryMetadata)) (w : World E)
        → IsValid w.store
        → IsValid (compared E meanwhile key r w).1.store
    compared-IsValid key (err e) w v = v
    compared-IsValid key (ok ms) w v = compare w v

    listed_by-IsValid :
        (key : OperatorSourceKey) (r : Result Options) (w : World E)
        → IsValid w.store
        → IsValid (listed_by E meanwhile key r w).1.store
    listed_by-IsValid key (err e) w v = v
    listed_by-IsValid key (ok registry) w v =
        compared-IsValid key _
          (outside E (list_packages E registry key.spec.registry_namespace) w).1 v

    connected-IsValid :
        (key : OperatorSourceKey) (r : Result Options) (w : World E)
        → IsValid w.store
        → IsValid (connected E meanwhile key r w).1.store
    connected-IsValid key (err e) w v = v
    connected-IsValid key (ok options) w v = listed_by-IsValid key (new_client E options) w v

    of_stored-IsValid :
        (found : Option OperatorSourceKey) (w : World E)
        → IsValid w.store
        → IsValid (of_stored E meanwhile found w).1.store
    of_stored-IsValid none w v = v
    of_stored-IsValid (some key) w v =
        connected-IsValid key _
          (outside E (setup_app_registry_options E key.spec key.name.namespace) w).1 v

    has_update-IsValid :
        (source : OperatorSourceKey) (w : World E)
        → IsValid w.store
        → IsValid (has_update E meanwhile source w).1.store
    unfolding has_update
    has_update-IsValid source w v = of_stored-IsValid _ (meanwhile.before_get w) (get w v)

    -- A comparison has a result, if the row that it has found stays.
    has_update-some :
        ((w : World E) (uid : String) (row : OperatorSourceRow)
          → get_row uid w.store.rows ≡ some row
          → get_row uid (meanwhile.before_compare w).store.rows ≢ none)
        → (source : OperatorSourceKey) (w : World E) → IsValid w.store
        → (has_update E meanwhile source w).0 ≢ ok none
    has_update-some stay source w v q =
        let lost = (has_update-nil_iff E meanwhile source w).0 q in
        let (row, e) =
          stored_key source.uid (meanwhile.before_get w).store lost.key (get w v) lost.stored in
        stay _ lost.key.uid row e lost.gone

  -- The loop goes on in a well-formed world.
  abbrev Continues :
      (World E → Round × World E → Type 0)
      → (PackageUpdateAggregator → World E → Round × World E)
      → Type 0
  Continues P continue =
      (a : PackageUpdateAggregator) (w : World E) → IsValid w.store → P w (continue a w)

  abbrev Valid : World E → Round × World E → Type 0
  Valid w out = IsValid out.1.store

  abbrev Calm : World E → Round × World E → Type 0
  Calm w out = out.0 ≢ round_panicked

  poll_source-IsValid :
      (source : OperatorSourceKey) (a : PackageUpdateAggregator)
      (continue : PackageUpdateAggregator → World E → Round × World E)
      (r : Result (Option UpdateResult)) (w : World E)
      → IsValid w.store
      → Continues Valid continue
      → IsValid (poll_source E source a continue r w).1.store
  poll_source-IsValid source a continue (err e) w v h = h a w v
  poll_source-IsValid source a continue (ok none) w v h = v
  poll_source-IsValid source a continue (ok (some r)) w v h =
      elim (Bool-cases r.registry_has_update) [ inl e ↦ rw e (h _ _ v) | inr e ↦ rw e (h a w v) ]

  poll_source-Calm :
      (source : OperatorSourceKey) (a : PackageUpdateAggregator)
      (continue : PackageUpdateAggregator → World E → Round × World E)
      (r : Result (Option UpdateResult)) (w : World E)
      → r ≢ ok none
      → IsValid w.store
      → Continues Calm continue
      → (poll_source E source a continue r w).0 ≢ round_panicked
  poll_source-Calm source a continue (err e) w n v h = h a w v
  poll_source-Calm source a continue (ok none) w n v h = absurd (n refl)
  poll_source-Calm source a continue (ok (some r)) w n v h =
      elim (Bool-cases r.registry_has_update) [ inl e ↦ rw e (h _ _ v) | inr e ↦ rw e (h a w v) ]

  send_notification-Calm : (a : PackageUpdateAggregator) → send_notification E a ≢ round_panicked
  unfolding send_notification
  send_notification-Calm a q = ground arith

  module _ (others : OtherGoroutines E) (valid : KeepValid others) where
    poll_sources-IsValid :
        (sources : List OperatorSourceKey) → Continues Valid (poll_sources E others sources)
    unfolding poll_sources
    poll_sources-IsValid [] a w v = v
    poll_sources-IsValid (source ∷ rest) a w v =
        let (get, compare) = valid rest in
        poll_source-IsValid source a (poll_sources E others rest) _ _
          (has_update-IsValid (others rest) get compare source w v) (poll_sources-IsValid rest)

    -- A round leaves the datastore well-formed.
    pub poll-IsValid : (w : World E) → IsValid w.store → IsValid (poll E others w).1.store
    unfolding poll
    poll-IsValid w v =
        poll_sources-IsValid (get_all_operator_sources w.store) new_package_update_aggregator w v

    module _ (stay : KeepRows others) where
      poll_sources-Calm :
          (sources : List OperatorSourceKey) → Continues Calm (poll_sources E others sources)
      unfolding poll_sources
      poll_sources-Calm [] a w v = send_notification-Calm a
      poll_sources-Calm (source ∷ rest) a w v =
          let (get, compare) = valid rest in
          poll_source-Calm source a (poll_sources E others rest) _ _
            (has_update-some (others rest) get compare (stay rest) source w v)
            (has_update-IsValid (others rest) get compare source w v) (poll_sources-Calm rest)

      -- And it does not panic, if no row goes away between the two reads of a comparison.
      pub poll-Calm : (w : World E) → IsValid w.store → (poll E others w).0 ≢ round_panicked
      unfolding poll
      poll-Calm w v =
          poll_sources-Calm (get_all_operator_sources w.store) new_package_update_aggregator w v

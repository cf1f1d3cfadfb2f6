-- ===== src/Sources/Poller/Races.antt =====
-- When HasUpdate (pkg/operatorsource/pollhelper.go) returns a nil result without an error: the
-- datastore is not locked between its two calls, and the error of the second is dropped.
use operator_marketplace.Common.{
  String, ◌≡◌, refl, ap, ◌≢◌, ◌↔◌, Option, none, some, List, Option-cases, inl, inr,
}
use operator_marketplace.Common.Errors.{Error, Result, ok, err}
use operator_marketplace.Datastore.{Datastore, get_operator_source}
use operator_marketplace.Datastore.Metadata.{OperatorSourceKey, OperatorSourceRow, RegistryMetadata}
use operator_marketplace.Datastore.Rows.{get_row}
use operator_marketplace.Datastore.Update.{UpdateResult, new_update_result}
use operator_marketplace.Datastore.HasUpdate.{
  operator_source_has_update, scan_remotes, finish_update,
}
use operator_marketplace.Cluster.{Environment, Options}
use operator_marketplace.Sources.World.{World, outside, setup_app_registry_options}
use operator_marketplace.AppRegistry.{new_client, list_packages}
use operator_marketplace.Sources.Poller.{
  Meanwhile, compared, listed_by, connected, of_stored, has_update,
}

finish_update-some :
    (row : OperatorSourceRow) (ms : List RegistryMetadata) (r : UpdateResult × Option Error)
    → (finish_update row ms r).0 ≢ none
unfolding finish_update
finish_update-some row ms (r, some e) q = cc
finish_update-some row ms (r, none) q = cc

-- A comparison has no result exactly if the datastore does not know the source.
nil-gone :
    (uid : String) (ms : List RegistryMetadata) (ds : Datastore)
    → (operator_source_has_update uid ms ds).0 ≡ none
    → get_row uid ds.rows ≡ none
unfolding operator_source_has_update
nil-gone uid ms ds q = elim (Option-cases (get_row uid ds.rows)) [
  | inl e ↦ e
  | inr (row, e) ↦ absurd (
      finish_update-some row ms (scan_remotes row ms new_update_result)
        (rw (e, operator_source_has_update) at q))
]

gone-nil :
    (uid : String) (ms : List RegistryMetadata) (ds : Datastore)
    → get_row uid ds.rows ≡ none
    → (operator_source_has_update uid ms ds).0 ≡ none
unfolding operator_source_has_update
gone-nil uid ms ds e = rw (e, operator_source_has_update) refl

module _ (E : Environment) (meanwhile : Meanwhile E) where
  -- The world after the options are read, and after the packages are listed.
  abbrev after_options : OperatorSourceKey → World E → World E
  after_options key w = (outside E (setup_app_registry_options E key.spec key.name.namespace) w).1

  abbrev after_list : OperatorSourceKey → Options → World E → World E
  after_list key registry w = (outside E (list_packages E registry key.spec.registry_namespace) w).1

  -- The source's row is there when HasUpdate looks it up, the client and the list are had, and when
  -- it compares, the row is gone.
  pub record LosesRow (uid : String) (w : World E) : Type 0 where
    pub key : OperatorSourceKey
    pub stored : get_operator_source uid (meanwhile.before_get w).store ≡ some key
    pub options : Options
    pub registry : Options
    pub packages : List RegistryMetadata
    pub set_up :
        (setup_app_registry_options E key.spec key.name.namespace
          (meanwhile.before_get w).cluster).0
        ≡ ok options
    pub client : new_client E options ≡ ok registry
    pub listed :
        (list_packages E registry key.spec.registry_namespace
          (after_options key (meanwhile.before_get w)).cluster).0
        ≡ ok packages
    pub gone :
        get_row key.uid
          (meanwhile.before_compare
            (after_list key registry (after_options key (meanwhile.before_get w)))).store.rows
        ≡ none

  compared_nil :
      (key : OperatorSourceKey) (r : Result (List RegistryMetadata)) (w : World E)
      → (compared E meanwhile key r w).0 ≡ ok none
      → (ms : List RegistryMetadata) × (r ≡ ok ms)
        × (get_row key.uid (meanwhile.before_compare w).store.rows ≡ none)
  compared_nil key (err e) w q = cc
  compared_nil key (ok ms) w q = (ms, refl, nil-gone key.uid ms _ (cc))

  module _ (uid : String) (key : OperatorSourceKey) (w : World E)
      (stored : get_operator_source uid (meanwhile.before_get w).store ≡ some key) where
    listed_nil :
        (options : Options) (r : Result Options)
        → (setup_app_registry_options E key.spec key.name.namespace
            (meanwhile.before_get w).cluster).0
          ≡ ok options
        → new_client E options ≡ r
        → (listed_by E meanwhile key r (after_options key (meanwhile.before_get w))).0 ≡ ok none
        → LosesRow uid w
    listed_nil options (err e) set_up client q = cc
    listed_nil options (ok registry) set_up client q =
        let (ms, listed, gone) =
          compared_nil key _ (after_list key registry (after_options key (meanwhile.before_get w)))
            q in
        record {
          key = key;
          stored = stored;
          options = options;
          registry = registry;
          packages = ms;
          set_up = set_up;
          client = client;
          listed = listed;
          gone = gone;
        }

    connected_nil :
        (r : Result Options)
        → (setup_app_registry_options E key.spec key.name.namespace
            (meanwhile.before_get w).cluster).0
          ≡ r
        → (connected E meanwhile key r (after_options key (meanwhile.before_get w))).0 ≡ ok none
        → LosesRow uid w
    connected_nil (err e) set_up q = cc
    connected_nil (ok options) set_up q = listed_nil options (new_client E options) set_up refl q

  of_stored_nil :
      (uid : String) (found : Option OperatorSourceKey) (w : World E)
      → get_operator_source uid (meanwhile.before_get w).store ≡ found
      → (of_stored E meanwhile found (meanwhile.before_get w)).0 ≡ ok none
      → LosesRow uid w
  of_stored_nil uid none w e q = cc
  of_stored_nil uid (some key) w e q = connected_nil uid key w e _ refl q

  lost_nil :
      (source : OperatorSourceKey) (w : World E)
      → LosesRow source.uid w
      → (has_update E meanwhile source w).0 ≡ ok none
  unfolding has_update
  lost_nil source w h =
      rw (h.stored, h.set_up, h.client, h.listed) (ap ok (gone-nil h.key.uid h.packages _ h.gone))

  -- HasUpdate returns a nil result without an error exactly if the datastore has the source when it is
  -- looked up, the options, the client and the list of packages are had without an error, and what the
  -- other goroutines do meanwhile leaves no row of the source when it compares.
  pub has_update-nil_iff :
      (source : OperatorSourceKey) (w : World E)
      → ((has_update E meanwhile source w).0 ≡ ok none) ↔ LosesRow source.uid w
  unfolding has_update
  has_update-nil_iff source w = (
    of_stored_nil source.uid (get_operator_source source.uid (meanwhile.before_get w).store) w refl,
    lost_nil source w,
  )

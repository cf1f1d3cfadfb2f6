-- ===== src/Manager.antt =====
-- The start of the process: cmd/manager/main.go, the Add functions of pkg/controller, and New of
-- pkg/status/status.go. The calls that connect to the cluster are the fields of a record.
-- log.Fatal ends the process; the two sync loops that main starts are in Syncers and System.
pub mod Failures
use operator_marketplace.Common.{
  String, Bool, true, false, Option, none, some, List, [], ◌∷◌, is_some,
}
use operator_marketplace.Common.Errors.{Error, Result, ok, err}
use operator_marketplace.Common.Effects.{Eff, ◌>>=◌, pure}
use operator_marketplace.Status.{Reporting, StatusReporter, set_failing, set_available}

-- How main ends: by log.Fatal of an error while it starts, or of what mgr.Start has returned.
pub data Exit : Type 0 where
  fatal : Error → Exit
  finished : Option Error → Exit

module _ (R : Reporting) where
  pub record Startup : Type 0 where
    -- k8sutil.GetWatchNamespace, config.GetConfig, manager.New and Start of the manager
    pub get_watch_namespace : Eff R.State (Result String)
    pub get_config : Eff R.State (Option Error)
    pub new_manager : String → Eff R.State (Option Error)
    pub start : Eff R.State (Option Error)
    -- AddToScheme of v1beta1, of pkg/apis and of OLM
    pub add_crds_to_scheme : Eff R.State (Option Error)
    pub add_apis_to_scheme : Eff R.State (Option Error)
    pub add_olm_to_scheme : Eff R.State (Option Error)
    -- client.New, Get of a CustomResourceDefinition and NewForConfig of the config client
    pub new_client : Eff R.State (Option Error)
    pub get_crd : String → Eff R.State (Option Error)
    pub new_config_client : Eff R.State (Option Error)
    -- controller.New by its name, and Watch of a kind
    pub new_controller : String → Eff R.State (Option Error)
    pub watch : String → Eff R.State (Option Error)

  -- Steps in a row, of which the first error is returned.
  unfoldable pub in_order : List (Eff R.State (Option Error)) → Eff R.State (Option Error)
  in_order [] = pure none
  in_order (step ∷ steps) =
      let following = in_order steps in
      do error ← step; elim error [ some e ↦ pure (some e) | none ↦ following ]

  abbrev pub or_error :
      {A B : Type 0} → Result A → (A → Eff R.State (Result B)) → Eff R.State (Result B)
  or_error (err e) next = pure (err e)
  or_error (ok a) next = next a

  abbrev pub unless_failed :
      {B : Type 0} → Option Error → Eff R.State (Result B) → Eff R.State (Result B)
  unless_failed (some e) next = pure (err e)
  unless_failed none next = next

  module _ (U : Startup) where
    -- New of pkg/status: the API is not present if its definition cannot be read.
    unfoldable pub new_status : String → Eff R.State (Result StatusReporter)
    unfolding in_order
    new_status namespace = do
      connected ← in_order (U.add_crds_to_scheme ∷ U.new_client ∷ [])
      unless_failed connected (do
        found ← U.get_crd "clusteroperators.config.openshift.io"
        client ← U.new_config_client
        unless_failed client
            (pure (ok (record { co_api_not_present = is_some found; namespace = namespace }))))

    -- Up to status.New, an error is logged and ends the process.
    unfoldable pub prepare : Eff R.State (Result StatusReporter)
    unfolding new_status
    prepare = do
      found ← U.get_watch_namespace
      or_error found λ namespace. do
        configured ← in_order (U.get_config ∷ U.new_manager namespace ∷ [])
        unless_failed configured (new_status namespace)

    -- Add of the two controllers; that of the configs makes its own client.
    unfoldable pub add_config_controller : Eff R.State (Option Error)
    unfolding in_order
    add_config_controller = in_order (
        U.get_config
        ∷ U.new_client
        ∷ U.new_controller "catalogsourceconfig-controller"
        ∷ U.watch "CatalogSourceConfig"
        ∷ [])

    unfoldable pub add_source_controller : Eff R.State (Option Error)
    unfolding in_order
    add_source_controller =
        in_order (U.new_controller "operatorsource-controller" ∷ U.watch "OperatorSource" ∷ [])

    -- AddToManager, over AddToManagerFuncs as the files of pkg/controller fill it in.
    unfoldable pub add_to_manager : Eff R.State (Option Error)
    unfolding in_order add_config_controller add_source_controller
    add_to_manager = in_order (add_config_controller ∷ add_source_controller ∷ [])

    -- The steps of main whose error is reported.
    unfoldable pub set_up : Eff R.State (Option Error)
    unfolding in_order add_to_manager
    set_up = in_order (U.add_apis_to_scheme ∷ U.add_olm_to_scheme ∷ add_to_manager ∷ [])

    -- The function fatal: the report may end the process by an error of its own.
    unfoldable pub report_fatal : StatusReporter → Error → Eff R.State Exit
    report_fatal status e = do
      failed ← set_failing R status e.message
      pure (elim failed [ none ↦ fatal e | some other ↦ fatal other ])

    unfoldable pub run_manager : StatusReporter → Eff R.State Exit
    run_manager status = do
      failed ← set_available R status "Operator running"
      elim failed [ some e ↦ pure (fatal e) | none ↦ do stopped ← U.start; pure (finished stopped) ]

    abbrev pub after_set_up : StatusReporter → Option Error → Eff R.State Exit
    after_set_up status (some e) = report_fatal status e
    after_set_up status none = run_manager status

    abbrev pub after_prepare : Result StatusReporter → Eff R.State Exit
    after_prepare (err e) = pure (fatal e)
    after_prepare (ok status) = do error ← set_up; after_set_up status error

    unfoldable pub main : Eff R.State Exit
    unfolding prepare set_up report_fatal run_manager
    main = do prepared ← prepare; after_prepare prepared

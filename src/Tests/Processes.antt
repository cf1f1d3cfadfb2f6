-- ===== src/Tests/Processes.antt =====
-- The process as a whole, from its start on.
use operator_marketplace.Common.{◌≡◌, refl, true, none, some, List, [], ◌∷◌}
use operator_marketplace.Common.Errors.{Error, ok, Reason}
use operator_marketplace.Api.Meta.{NamespacedName}
use operator_marketplace.Datastore.{new_datastore}
use operator_marketplace.Datastore.Invariant.{calls-IsValid}
use operator_marketplace.Sources.Poller.{OtherGoroutines, idle}
use operator_marketplace.Sources.Poller.Rounds.{KeepValid, KeepRows}
use operator_marketplace.Status.{ClusterOperator, ensure_cluster_operator, set_failing, set_status}
use operator_marketplace.Status.Conditions.{Reports}
use operator_marketplace.Syncers.{RegistryEvent, sync_registry}
use operator_marketplace.Syncers.Ends.{IsStopped, IsEnd, sync_registry_ends}
use operator_marketplace.System.{
  Process, serve_source, serve_config, poll_once, IsReachable, starts, steps, source, config, round,
}
use operator_marketplace.System as System
use operator_marketplace.System.Invariant.{IsSound, process-IsSound}
use operator_marketplace.Manager.{Startup, in_order, new_status, prepare, set_up, fatal, main}
use operator_marketplace.Manager.Failures.{main-Reports}
use operator_marketplace.Tests.Arrivals.{writable, request, start}
use operator_marketplace.Tests.Reports.{reporting, reporter, put_first-IsSetter}

-- During the round, the datastore loses its rows before each look-up.
abbrev forgetful : OtherGoroutines writable
forgetful rest = record {
  before_get = λ w. record w { store = new_datastore };
  before_compare = λ w. w;
}

forgetful-KeepValid : KeepValid writable forgetful
forgetful-KeepValid rest = (λ w v. calls-IsValid [], λ w v. v)

forgetful-KeepRows : KeepRows writable forgetful
forgetful-KeepRows rest w uid row e q = cc

-- The source is handled, the registries are polled, and a config is handled.
abbrev first_process : Process writable
first_process = serve_source writable request (System.start writable start.cluster)

abbrev later_process : Process writable
later_process = serve_config writable request (poll_once writable forgetful first_process)

later-IsReachable : IsReachable writable later_process
later-IsReachable =
    steps
      (steps (steps (starts start.cluster) (source request _))
        (round forgetful first_process forgetful-KeepValid))
      (config request _)

process-IsSound_example :
    IsSound writable later_process
    × ((r : NamespacedName) → (serve_config writable r later_process).store ≡ later_process.store)
process-IsSound_example = process-IsSound writable later_process later-IsReachable

abbrev two_rounds : List (RegistryEvent writable)
two_rounds =
    RegistryEvent.interval_over (idle writable)
    ∷ RegistryEvent.meanwhile (λ w. record w { cluster = start.cluster })
    ∷ RegistryEvent.interval_over forgetful
    ∷ RegistryEvent.stopped
    ∷ []

two_rounds-IsStopped : IsStopped writable two_rounds
two_rounds-IsStopped = (
  λ rest. (λ w v. v, λ w v. v),
  λ rest w uid row e q. cc,
  (λ w v. v, (forgetful-KeepValid, forgetful-KeepRows, tt)),
)

sync_registry_ends_example :
    IsEnd writable two_rounds start (sync_registry writable two_rounds [] start)
unfolding new_datastore
sync_registry_ends_example =
    sync_registry_ends writable two_rounds start (calls-IsValid []) two_rounds-IsStopped

abbrev no_olm : Error
no_olm = record { reason = Reason.other; message = "no OLM" }

-- Everything works but the scheme of OLM.
abbrev startup : Startup reporting
startup = record {
  get_watch_namespace = λ s. (ok "marketplace", s);
  get_config = λ s. (none, s);
  new_manager = λ namespace s. (none, s);
  start = λ s. (none, s);
  add_crds_to_scheme = λ s. (none, s);
  add_apis_to_scheme = λ s. (none, s);
  add_olm_to_scheme = λ s. (some no_olm, s);
  new_client = λ s. (none, s);
  get_crd = λ name s. (none, s);
  new_config_client = λ s. (none, s);
  new_controller = λ name s. (none, s);
  watch = λ kind s. (none, s);
}

main-Reports_example :
    ((main reporting startup none).0 ≡ fatal no_olm)
    × ((o : ClusterOperator) × ((main reporting startup none).1
          ≡ (reporting.update_status o (ensure_cluster_operator reporting "marketplace" none).1).1)
        × Reports reporting put_first-IsSetter true no_olm.message o.conditions)
unfolding prepare new_status in_order set_up set_failing set_status ensure_cluster_operator
main-Reports_example =
    main-Reports reporting startup put_first-IsSetter reporter none none none no_olm refl refl refl
      refl

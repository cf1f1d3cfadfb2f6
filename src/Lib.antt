-- ===== src/Lib.antt =====
-- Verification library of operator-marketplace, a Kubernetes operator that fetches the lists of
-- operator packages from app registries (OperatorSource objects) and deploys catalogs of chosen
-- packages (CatalogSourceConfig objects).
--
-- The parts of the program, and the files that model them:
--
--   Common/        Go's slices, maps, strings, errors and results
--   Api/           pkg/apis/marketplace/v1alpha1: the two kinds of objects, their phases,
--                  finalizers and owners
--   Phase          pkg/phase/phase.go; Phase/Transitioner is transitioner.go
--   Datastore      pkg/datastore: the in-memory store of packages, a row per operator source.
--                  Datastore/Rows is row.go, Update update_result.go, HasUpdate
--                  OperatorSourceHasUpdate; the other modules below it hold proofs, of which
--                  Datastore/Unordered forgets the order of the rows
--   Cluster        the Kubernetes API, the registry servers and the clock, as parameters
--   AppRegistry    pkg/appregistry: the client that lists and retrieves packages;
--                  AppRegistry/Decoder is decoder.go
--   Configs        pkg/catalogsourceconfig and its controller. Configs/Cache is cache.go, Builders
--                  the builders, Registry registry.go, Reconcilers initial.go ... update.go,
--                  Handler factory.go, handler.go and the controller's Reconcile, Triggerer
--                  triggerer.go; the modules below them hold proofs. Configs/Progress follows a
--                  config over several calls
--   Sources        pkg/operatorsource and its controller. Sources/Reconcilers has one function
--                  per phase (initial.go ... outofsync.go), Sources/Handler the factory, Handle
--                  and the controller's Reconcile; Sources/Poller poller.go and
--                  pollhelper.go; the modules below them hold proofs. Sources/Progress follows
--                  a source over several calls
--   Status         pkg/status/status.go: the report of the operator's health
--   Syncers        the loops of both syncer.go: over the events of the poller's select, and over
--                  the channel of notifications
--   Manager        cmd/manager/main.go with its error paths, the Add functions of pkg/controller,
--                  and New of pkg/status/status.go
--   System         the process that main starts, as interleavings of both controllers and both
--                  loops over one datastore; System/Journey goes from a source to a config,
--                  System/Rollout from a new release to the configs
--   Tests/         the theorems applied to samples
--
-- How the parts interact: a controller's Reconcile fetches an object and hands it to Handle. Handle
-- asks the factory for the reconciler of the object's phase, runs it, and TransitionInto and an
-- update write the next phase. The reconcilers of Downloading and Initial fill the datastore, that
-- of Configuring creates a CatalogSourceConfig from it, those of Purging and of a deletion empty
-- it. The poller compares the datastore with the remote registries, sends a source that has changed
-- to Purging, and notifies the triggerer, which sends the affected configs back to Initial. A
-- CatalogSourceConfig is deployed in its Configuring phase: the datastore gives the sources of its
-- packages, a registry server is deployed, and a CatalogSource with its address is created.
--
-- How code becomes definitions:
--   * A method that changes state is a function World -> A x World; World is the datastore and the
--     state of all that is outside the process. One call of Handle runs without interruption.
--   * A call of the Kubernetes client, the app registry client, net/url or the clock is a field of
--     the record Cluster.Environment, one of the ClusterOperator API a field of
--     Status.Reporting, and one of controller-runtime and of the set-up a field of
--     Manager.Startup. No law of these calls is assumed unless a theorem names it.
--   * (out, nextPhase, err) is a record of three options. Reading a field through a nil object is
--     the outcome `panicked`.
--   * A Go map is an association list in any order of its keys, which stands for the order in which
--     a `range` visits them. A time is a number, of which 0 is Go's zero time.
--   * sort.Strings is an insertion sort in the order of characters; strconv.Itoa writes ten digits,
--     which a port of 32 bits does not exceed.
--   * Create of a Service returns the object as the API server fills it in, since the code reads the
--     cluster IP from it.
--   * strings.EqualFold is read over a folding of characters that is a parameter.
--   * The loops are recursions on the list that they go through, so no fuel is needed.
--   * Each call of a Reconcile and each notified trigger runs without interruption; between them,
--     the parts of the process run in any order. A round of polling is interrupted: the datastore is
--     locked for each of its methods only, so what the other goroutines do to it and to the cluster
--     before each of the round's reads is a parameter (Sources.Poller.OtherGoroutines).
--     In System, a call for a config and a received notification that fall into a round stand before
--     or after it; what they do to the cluster meanwhile is part of that parameter.
--   * What gzip and tar read from a blob is a list of entries, up to the end or an error.
--
-- Not modelled: log lines and metrics; the lengths of the waits of syncer.go; the health endpoint
-- and the flags of cmd/manager, which change no object; the HTTP transport of the app registry,
-- which is the environment's; generated code (pkg/client, deep copies, mocks); and the vendored
-- libraries.
pub mod Common
pub mod Api
pub mod Phase
pub mod Datastore
pub mod Cluster
pub mod AppRegistry
pub mod Sources
pub mod Status
pub mod Configs
pub mod Syncers
pub mod System
pub mod Manager
mod Tests

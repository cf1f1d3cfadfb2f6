-- ===== src/Sources/Reconcilers/Diagram.antt =====
-- The diagram of the phases of an OperatorSource, and that every phase reconciler follows it.
use operator_marketplace.Common.{
  ℕ, String, ◌≡◌, refl, true, Option, none, some, List, [], ◌∷◌, arith, ◌==◌, eq_iff, Bool-cases,
  inl, inr,
}
use operator_marketplace.Common.Errors.{Error, Result, ok, err, is_not_found, is_already_exists}
use operator_marketplace.Api.Meta.{Phase, new_phase, ensure_finalizer}
use operator_marketplace.Api.OperatorSource.{
  OperatorSource, current_phase_name, ensure_source_finalizer,
}
use operator_marketplace.Phase.{
  initial, configuring, succeeded, failed, validating, downloading, purging, get_next,
  get_next_with_message,
}
use operator_marketplace.Datastore.Metadata.{RegistryMetadata}
use operator_marketplace.Api.CatalogSourceConfig.{CatalogSourceConfig}
use operator_marketplace.Cluster.{Environment, Options}
use operator_marketplace.Sources.World.{Reconciled, World}
use operator_marketplace.Sources.Reconcilers.{
  initial_reconcile, validating_reconcile, downloading_reconcile, configuring_reconcile,
  succeeded_reconcile, failed_reconcile, purging_reconcile, advance, fail_into, err_empty_manifests,
  validated, finish_download, after_write, store_manifests, list_with, connect, configured,
  update_existing, after_create, reset_status, purged,
}

-- The arrows between phases, those to itself for a retry.
pub data Arrow : String → String → Type 0 where
  validate : Arrow initial validating
  download : Arrow validating downloading
  reject : Arrow validating failed
  retry_download : Arrow downloading downloading
  give_up : Arrow downloading failed
  configure : Arrow downloading configuring
  retry_configure : Arrow configuring configuring
  succeed : Arrow configuring succeeded
  retry_purge : Arrow purging purging
  restart : Arrow purging initial

abbrev pub Follows : String → Option Phase → Type 0
Follows name none = Unit
Follows name (some next) = Arrow name next.name

-- What a phase reconciler leaves alone.
pub record IsKept (o out : OperatorSource) : Type 0 where
  pub name : out.meta.name ≡ o.meta.name
  pub namespace : out.meta.namespace ≡ o.meta.namespace
  pub uid : out.meta.uid ≡ o.meta.uid
  pub spec : out.spec ≡ o.spec
  pub phase : out.status.current_phase ≡ o.status.current_phase

-- The result of a reconciler for phase `from`: an object comes back, with its identity and its
-- phase kept, and the next phase follows the diagram.
abbrev pub Moves : String → OperatorSource → Reconciled → Type 0
Moves from o r = elim r.out [ none ↦ ⊥ | some out ↦ IsKept o out × Follows from r.next_phase ]

IsKept-refl : (o : OperatorSource) → IsKept o o
IsKept-refl o = record { name = refl; namespace = refl; uid = refl; spec = refl; phase = refl }

fail_into-Moves :
    (from to : String) (o : OperatorSource) (e : Error)
    → Arrow from to
    → Moves from o (fail_into o to e)
unfolding get_next_with_message new_phase
fail_into-Moves from to o e a = (IsKept-refl o, a)

advance-Moves :
    (from to : String) (o out : OperatorSource)
    → IsKept o out
    → Arrow from to
    → Moves from o (advance out to)
unfolding get_next new_phase
advance-Moves from to o out k a = (k, a)

-- The guard of a reconciler is passed in its own phase.
guard_passed :
    (o : OperatorSource) (p : String)
    → current_phase_name o ≡ p
    → (current_phase_name o == p) ≡ true
guard_passed o p e = (eq_iff (current_phase_name o) p).1 e

module _ (E : Environment) (o : OperatorSource) where
  pub initial-Moves :
      (w : World E) → current_phase_name o ≡ initial → Moves initial o (initial_reconcile E o w).0
  unfolding initial_reconcile
  initial-Moves w e = rw (guard_passed o initial e) (
      advance-Moves initial validating o (ensure_source_finalizer o)
        (unfold ensure_source_finalizer ensure_finalizer in ground arith) validate)

  validated-Moves : (r : Option Error) → Moves validating o (validated E o r)
  unfolding get_next_with_message new_phase
  validated-Moves none = advance-Moves validating downloading o o (IsKept-refl o) download
  validated-Moves (some e) = (IsKept-refl o, reject)

  pub validating-Moves :
      (w : World E)
      → current_phase_name o ≡ validating
      → Moves validating o (validating_reconcile E o w).0
  unfolding validating_reconcile
  validating-Moves w e =
      rw (guard_passed o validating e) (validated-Moves (E.parse_request_uri o.spec.endpoint))

  finish_download-Moves : (w : World E) → Moves downloading o (finish_download E o w).0
  unfolding finish_download
  finish_download-Moves w =
      advance-Moves downloading configuring o _
        (record { name = refl; namespace = refl; uid = refl; spec = refl; phase = refl }) configure

  after_write-Moves :
      (r : ℕ × Option Error) (w : World E) → Moves downloading o (after_write E o r w).0
  unfolding after_write
  after_write-Moves (count, none) w = finish_download-Moves w
  after_write-Moves (ℕ.zero, some e) w = fail_into-Moves downloading failed o e give_up
  after_write-Moves (ℕ.suc count, some e) w = finish_download-Moves w

  store_manifests-Moves :
      (r : Result (List RegistryMetadata)) (w : World E)
      → Moves downloading o (store_manifests E o r w).0
  unfolding store_manifests
  store_manifests-Moves (err e) w = fail_into-Moves downloading downloading o e retry_download
  store_manifests-Moves (ok []) w =
      fail_into-Moves downloading failed o (err_empty_manifests E) give_up
  store_manifests-Moves (ok (m ∷ ms)) w = after_write-Moves _ _

  list_with-Moves : (r : Result Options) (w : World E) → Moves downloading o (list_with E o r w).0
  unfolding list_with
  list_with-Moves (err e) w = fail_into-Moves downloading downloading o e retry_download
  list_with-Moves (ok registry) w = store_manifests-Moves _ _

  connect-Moves : (r : Result Options) (w : World E) → Moves downloading o (connect E o r w).0
  unfolding connect
  connect-Moves (err e) w = fail_into-Moves downloading downloading o e retry_download
  connect-Moves (ok options) w = list_with-Moves _ w

  pub downloading-Moves :
      (w : World E)
      → current_phase_name o ≡ downloading
      → Moves downloading o (downloading_reconcile E o w).0
  unfolding downloading_reconcile
  downloading-Moves w e = rw (guard_passed o downloading e) (connect-Moves _ _)

  configured-Moves : (r : Option Error) → Moves configuring o (configured E o r)
  configured-Moves none = advance-Moves configuring succeeded o o (IsKept-refl o) succeed
  configured-Moves (some e) = fail_into-Moves configuring configuring o e retry_configure

  update_existing-Moves :
      (manifests : String) (r : Result CatalogSourceConfig) (w : World E)
      → Moves configuring o (update_existing E o manifests r w).0
  unfolding update_existing
  update_existing-Moves manifests (err e) w =
      fail_into-Moves configuring configuring o e retry_configure
  update_existing-Moves manifests (ok existing) w = configured-Moves _

  after_create-Moves :
      (manifests : String) (r : Option Error) (w : World E)
      → Moves configuring o (after_create E o manifests r w).0
  unfolding after_create
  after_create-Moves manifests none w =
      advance-Moves configuring succeeded o o (IsKept-refl o) succeed
  after_create-Moves manifests (some e) w = elim (Bool-cases (is_already_exists e)) [
    | inl p ↦ rw p (update_existing-Moves manifests _ _)
    | inr p ↦ rw p (fail_into-Moves configuring configuring o e retry_configure)
  ]

  pub configuring-Moves :
      (w : World E)
      → current_phase_name o ≡ configuring
      → Moves configuring o (configuring_reconcile E o w).0
  unfolding configuring_reconcile
  configuring-Moves w e = rw (guard_passed o configuring e) (after_create-Moves _ _ _)

  IsKept-reset : IsKept o (reset_status E o)
  IsKept-reset = record { name = refl; namespace = refl; uid = refl; spec = refl; phase = refl }

  purged-Moves : (r : Option Error) → Moves purging o (purged E o r)
  unfolding get_next new_phase
  purged-Moves none = advance-Moves purging initial o (reset_status E o) IsKept-reset restart
  purged-Moves (some e) = elim (Bool-cases (is_not_found e)) [
    | inl p ↦ rw p (IsKept-reset, restart)
    | inr p ↦ rw p (fail_into-Moves purging purging o e retry_purge)
  ]

  pub purging-Moves :
      (w : World E) → current_phase_name o ≡ purging → Moves purging o (purging_reconcile E o w).0
  unfolding purging_reconcile
  purging-Moves w e = rw (guard_passed o purging e) (purged-Moves _)

  pub succeeded-Moves :
      (w : World E)
      → current_phase_name o ≡ succeeded
      → Moves succeeded o (succeeded_reconcile E o w).0
  unfolding succeeded_reconcile
  succeeded-Moves w e = rw (guard_passed o succeeded e) (IsKept-refl o, tt)

  pub failed-Moves :
      (w : World E) → current_phase_name o ≡ failed → Moves failed o (failed_reconcile E o w).0
  unfolding failed_reconcile
  failed-Moves w e = rw (guard_passed o failed e) (IsKept-refl o, tt)

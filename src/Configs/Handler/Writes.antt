-- ===== src/Configs/Handler/Writes.antt =====
-- What one call for a config writes: the update of the object with its next phase.
use operator_marketplace.Common.{String, ◌≡◌, refl, false, ◌==◌}
use operator_marketplace.Common.Errors.{ok}
use operator_marketplace.Api.Meta.{NamespacedName, Time, Phase, new_phase}
use operator_marketplace.Api.CatalogSourceConfig.{CatalogSourceConfig, ensure_config_gvk}
use operator_marketplace.Phase.{get_next}
use operator_marketplace.Phase.Transitioner.{transition_into_lem}
use operator_marketplace.Cluster.{Environment}
use operator_marketplace.Sources.Handler.{returned}
use operator_marketplace.Configs.Reconcilers.{ConfigWorld, config_phase, config_advance}
use operator_marketplace.Configs.Handler.{
  persist_config, finish_config, handle_config, fetched_config, reconcile_config_request,
}

-- The config in its next phase, since `now`.
abbrev pub config_moved : Time → CatalogSourceConfig → Phase → CatalogSourceConfig
config_moved now out next = record out {
  current_phase = record { phase = next; last_transition_time = now; last_update_time = now };
}

module _ (E : Environment) where
  -- A change of the phase's name is written with one update.
  pub finish_moves :
      (out : CatalogSourceConfig) (name : String) (w : ConfigWorld E)
      → (config_phase out == name) ≡ false
      → let (u, cluster) =
          E.configs.update (config_moved (E.now w.cluster) out (get_next name)) w.cluster in
        finish_config E (config_advance out name) w ≡ (returned u, record w { cluster = cluster })
  unfolding finish_config persist_config
  finish_moves out name w n =
      rw (transition_into_lem (E.now w.cluster) out.current_phase (get_next name))
        (unfold get_next new_phase in rw n refl)

  pub request_handled :
      (request : NamespacedName) (c : CatalogSourceConfig) (w : ConfigWorld E) (s : E.State)
      → E.configs.get request w.cluster ≡ (ok c, s)
      → reconcile_config_request E request w
        ≡ handle_config E (ensure_config_gvk c) (record w { cluster = s })
  unfolding reconcile_config_request fetched_config
  request_handled request c w s h = rw (h, fetched_config) refl

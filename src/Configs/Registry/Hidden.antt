-- ===== src/Configs/Registry/Hidden.antt =====
-- The operator sources that getOperatorSources (pkg/catalogsourceconfig/registry.go) leaves out.
use mathlib.Core.Path.{subst}
use operator_marketplace.Common.{String, ◌≡◌, refl, ap, ◌∙◌, true, List, [], ◌∷◌, ◌++◌}
use operator_marketplace.Common.Text.{contains_text}
use operator_marketplace.Common.Text.Contains.{contains_text_trans}
use operator_marketplace.Common.Errors.{ok}
use operator_marketplace.Datastore.{Datastore, read}
use operator_marketplace.Datastore.Metadata.{OpsrcRef}
use operator_marketplace.Configs.Registry.{namespaced, note_source, note_read, collect_sources}
use operator_marketplace.Configs.Registry.Listing.{IsListed, note_read-longer, note_read-IsListed}

module _ (ds : Datastore) (q : String) (b : OpsrcRef) where
  note_source-skip :
      (acc : String × List String)
      → contains_text acc.0 (namespaced b) ≡ true
      → note_source b acc ≡ acc
  unfolding note_source
  note_source-skip (text, names) h = rw h refl

  collect_sources-skip :
      (ps rest : List String) (acc : String × List String)
      → read q ds ≡ ok b
      → contains_text acc.0 (namespaced b) ≡ true
      → collect_sources ds (ps ++ (q ∷ rest)) acc ≡ collect_sources ds (ps ++ rest) acc
  unfolding collect_sources
  collect_sources-skip [] rest acc r h =
      ap (λ a. collect_sources ds rest a) (ap (λ x. note_read x acc) r ∙ note_source-skip acc h)
  collect_sources-skip (p ∷ ps) rest acc r h =
      collect_sources-skip ps rest (note_read (read p ds) acc) r
        (note_read-longer ds (read p ds) acc (namespaced b) h)

  -- If the namespace and name of a package's source are a part of those of the source of a package
  -- earlier in the list, the loop of getOperatorSources ends with the same text and names as without
  -- the package: its source is left out, also where the two sources are different.
  pub hidden_source :
      (p : String) (a : OpsrcRef) (ps rest : List String) (acc : String × List String)
      → read p ds ≡ ok a
      → read q ds ≡ ok b
      → contains_text (namespaced a) (namespaced b) ≡ true
      → collect_sources ds (p ∷ (ps ++ (q ∷ rest))) acc ≡ collect_sources ds (p ∷ (ps ++ rest)) acc
  unfolding collect_sources
  hidden_source p a ps rest acc e r h = collect_sources-skip ps rest (note_read (read p ds) acc) r (
      contains_text_trans _ (namespaced a) (namespaced b)
        (subst (IsListed ds (note_read (read p ds) acc).0) e
          (note_read-IsListed ds (read p ds) acc))
        h)

-- ===== src/Configs/Registry/Listing.antt =====
-- The operator sources that getOperatorSources lists for a config.
use operator_marketplace.Common.{
  String, ◌<>◌, ◌≡◌, refl, ◌⊎◌, inl, inr, true, List, [], ◌∷◌, All, Bool-cases, arith, eq_iff,
  contains, contains-append,
}
use operator_marketplace.Common.Text.{contains_text}
use operator_marketplace.Common.Text.Contains.{contains_text-longer, contains_text-middle}
use operator_marketplace.Common.Errors.{Result, ok, err}
use operator_marketplace.Api.CatalogSourceConfig.{CatalogSourceConfig}
use operator_marketplace.Datastore.{Datastore, read}
use operator_marketplace.Datastore.Metadata.{OpsrcRef}
use operator_marketplace.Configs.Cache.{get_package_ids}
use operator_marketplace.Configs.Registry.{
  namespaced, note_source, note_read, collect_sources, get_operator_sources,
}

module _ (ds : Datastore) where
  -- Some package of the list is read from a source of this name.
  abbrev pub IsRead : List String → String → Type 0
  IsRead [] name = ⊥
  IsRead (p ∷ ps) name =
      ((opsrc : OpsrcRef) × (read p ds ≡ ok opsrc) × (opsrc.name ≡ name)) ⊎ IsRead ps name

  -- Whatever is read from a package has its source's text in the result.
  abbrev pub IsListed : String → Result OpsrcRef → Type 0
  IsListed text (err e) = Unit
  IsListed text (ok opsrc) = contains_text text (namespaced opsrc) ≡ true

  pub note_read-longer :
      (r : Result OpsrcRef) (acc : String × List String) (sub : String)
      → contains_text acc.0 sub ≡ true
      → contains_text (note_read r acc).0 sub ≡ true
  unfolding note_source
  note_read-longer (err e) acc sub h = h
  note_read-longer (ok opsrc) (text, names) sub h =
      elim (Bool-cases (contains_text text (namespaced opsrc))) [
        | inl e ↦ rw e h
        | inr e ↦ rw e (contains_text-longer text (namespaced opsrc <> ",") sub h)
      ]

  pub note_read-IsListed :
      (r : Result OpsrcRef) (acc : String × List String) → IsListed (note_read r acc).0 r
  unfolding note_source
  note_read-IsListed (err e) acc = tt
  note_read-IsListed (ok opsrc) (text, names) =
      elim (Bool-cases (contains_text text (namespaced opsrc))) [
        | inl e ↦ rw e e
        | inr e ↦ rw e (contains_text-middle text (namespaced opsrc) ",")
      ]

  collect_sources-longer :
      (ps : List String) (acc : String × List String) (sub : String)
      → contains_text acc.0 sub ≡ true
      → contains_text (collect_sources ds ps acc).0 sub ≡ true
  unfolding collect_sources
  collect_sources-longer [] acc sub h = h
  collect_sources-longer (p ∷ ps) acc sub h =
      collect_sources-longer ps (note_read (read p ds) acc) sub
        (note_read-longer (read p ds) acc sub h)

  IsListed-later :
      (r : Result OpsrcRef) (ps : List String) (acc : String × List String)
      → IsListed acc.0 r
      → IsListed (collect_sources ds ps acc).0 r
  IsListed-later (err e) ps acc h = tt
  IsListed-later (ok opsrc) ps acc h = collect_sources-longer ps acc (namespaced opsrc) h

  -- The text that the loop of getOperatorSources builds contains the namespace and name of the
  -- source of each package that is in the datastore.
  pub collect_sources-IsListed :
      (ps : List String) (acc : String × List String)
      → All (λ p. IsListed (collect_sources ds ps acc).0 (read p ds)) ps
  unfolding collect_sources
  collect_sources-IsListed [] acc = tt
  collect_sources-IsListed (p ∷ ps) acc = (
    IsListed-later (read p ds) ps (note_read (read p ds) acc) (note_read-IsListed (read p ds) acc),
    collect_sources-IsListed ps (note_read (read p ds) acc),
  )

  -- A name that was there, or that a package of the list is read from.
  abbrev IsKnown : List String → List String → String → Type 0
  IsKnown before ps name = (contains name before ≡ true) ⊎ IsRead ps name

  note_read-IsKnown :
      (p name : String) (ps : List String) (r : Result OpsrcRef) (acc : String × List String)
      → read p ds ≡ r
      → IsKnown (note_read r acc).1 ps name
      → IsKnown acc.1 (p ∷ ps) name
  unfolding note_source contains
  note_read-IsKnown p name ps (err e) acc q (inl h) = inl h
  note_read-IsKnown p name ps (err e) acc q (inr h) = inr (inr h)
  note_read-IsKnown p name ps (ok opsrc) acc q (inr h) = inr (inr h)
  note_read-IsKnown p name ps (ok opsrc) (text, names) q (inl h) =
      elim (Bool-cases (contains name names)) [
        | inl e ↦ inl e
        | inr n ↦ inr (
            inl (
              opsrc,
              q,
              ground (arith, contains-append name names (opsrc.name ∷ []), eq_iff opsrc.name name),
            ))
      ]

  collect_sources-IsKnown :
      (name : String) (ps : List String) (acc : String × List String)
      → contains name (collect_sources ds ps acc).1 ≡ true
      → IsKnown acc.1 ps name
  unfolding collect_sources
  collect_sources-IsKnown name [] acc h = inl h
  collect_sources-IsKnown name (p ∷ ps) acc h =
      note_read-IsKnown p name ps (read p ds) acc refl
        (collect_sources-IsKnown name ps (note_read (read p ds) acc) h)

  nothing_before : (name : String) (ps : List String) → IsKnown [] ps name → IsRead ps name
  unfolding contains
  nothing_before name ps (inl h) = cc
  nothing_before name ps (inr h) = h

  -- Every name in the list of getOperatorSources is the name of a source that the datastore gives
  -- for some package of the config.
  pub get_operator_sources-IsRead :
      (c : CatalogSourceConfig) (name : String)
      → contains name (get_operator_sources ds c).1 ≡ true
      → IsRead (get_package_ids c.spec.packages) name
  unfolding get_operator_sources
  get_operator_sources-IsRead c name h =
      nothing_before name (get_package_ids c.spec.packages)
        (collect_sources-IsKnown name (get_package_ids c.spec.packages) ("", []) h)

-- ===== src/Datastore/Serving.antt =====
-- Which operator source Read (pkg/datastore/datastore.go) names for a package.
use operator_marketplace.Common.{
  String, ◌≡◌, ◌⊎◌, refl, sym, ap, ◌∙◌, inl, inr, true, false, Option, none, some, List, [], ◌∷◌,
  All, All-append, arith, ◌==◌, eq_iff, eq_refl, Bool-cases, contains, contains-append, map,
}
use operator_marketplace.Common.Maps.{Map, lookup, values, All-lookup_self}
use operator_marketplace.Common.Errors.{Error, Result, ok, err}
use operator_marketplace.Datastore.{
  Datastore, last_with_package, found_or, search_package, opsrc_result, read,
}
use operator_marketplace.Datastore.Metadata.{
  OpsrcRef, Repository, OperatorSourceRow, package_of, get_packages,
}
use operator_marketplace.Datastore.Rows.{RowMap, get_all_repositories, get_all_packages}
use operator_marketplace.Datastore.Invariant.{ref_of, IsValidRepository, IsValidRow, IsValid}
use operator_marketplace.Datastore.Reading.{is_ok, read-is_ok}

-- Some row offers the package, and the reference is to its operator source.
abbrev pub Serves : String → OpsrcRef → RowMap → Type 0
Serves pkg ref m =
    (uid : String) × (row : OperatorSourceRow) × (lookup uid m ≡ some row)
    × (contains pkg (get_packages row) ≡ true)
    × (ref ≡ ref_of row.key)

-- No row offers the package.
abbrev pub NoneServes : String → RowMap → Type 0
NoneServes pkg = All (λ e. contains pkg (get_packages e.1) ≡ false)

none_serves :
    (pkg : String) (m : RowMap) → contains pkg (get_all_packages m) ≡ false → NoneServes pkg m
unfolding get_all_packages
none_serves pkg [] h = tt
none_serves pkg ((uid, row) ∷ m) h =
    let either = contains-append pkg (get_packages row) (get_all_packages m) in
    (ground (arith, either), none_serves pkg m (ground (arith, either)))

module _ (full : RowMap) where
  abbrev HasOrigin : Repository → Type 0
  HasOrigin r = Serves r.package_name r.opsrc full

  row_origins :
      (uid : String) (row : OperatorSourceRow) (reps : Map Repository)
      → lookup uid full ≡ some row
      → All (IsValidRepository (ref_of row.key)) reps
      → ((pkg : String)
          → contains pkg (map package_of (values reps)) ≡ true
          → contains pkg (get_packages row) ≡ true)
      → All HasOrigin (values reps)
  unfolding contains
  row_origins uid row [] l v f = tt
  row_origins uid row ((k, r) ∷ reps) l v f = (
    (uid, row, l, f r.package_name (rw (eq_refl r.package_name) refl), v.0.owned),
    row_origins uid row reps l v.1 (λ pkg h. f pkg (ground arith)),
  )

  origins :
      (m : RowMap)
      → All (λ e. lookup e.0 full ≡ some e.1) m
      → All IsValidRow m
      → All HasOrigin (get_all_repositories m)
  unfolding get_all_repositories get_packages
  origins [] l v = tt
  origins ((uid, row) ∷ m) l v =
      All-append HasOrigin (values row.repositories) (get_all_repositories m)
        (row_origins uid row row.repositories l.0 v.0.valid (λ pkg h. h)) (origins m l.1 v.1)

  module _ (pkg : String) where
    abbrev IsFound : Option Repository → Type 0
    IsFound none = Unit
    IsFound (some r) = HasOrigin r × (r.package_name ≡ pkg)

    last_with_package-IsFound :
        (rs : List Repository) (acc : Option Repository)
        → All HasOrigin rs
        → IsFound acc
        → IsFound (last_with_package pkg rs acc)
    unfolding last_with_package
    last_with_package-IsFound [] acc h a = a
    last_with_package-IsFound (r ∷ rs) acc h a =
        last_with_package-IsFound rs _ h.1 (elim (Bool-cases (r.package_name == pkg)) [
          | inl e ↦ rw e (h.0, (eq_iff r.package_name pkg).0 e)
          | inr e ↦ rw e a
        ])

    found-Serves :
        (o : Option Repository) (e : Error) (ref : OpsrcRef)
        → IsFound o
        → opsrc_result (found_or o e) ≡ ok ref
        → Serves pkg ref full
    found-Serves none e ref f h = cc
    found-Serves (some r) e ref ((uid, row, l, c, o), named) h =
        (uid, row, l, rw named at c, cc (o, h))

    search_package-Serves :
        (rs : List Repository) (ref : OpsrcRef)
        → All HasOrigin rs
        → opsrc_result (search_package pkg rs) ≡ ok ref
        → Serves pkg ref full
    search_package-Serves [] ref h e = cc
    search_package-Serves (r ∷ rs) ref h e =
        found-Serves (last_with_package pkg (r ∷ rs) none) _ ref
          (last_with_package-IsFound (r ∷ rs) none h tt) e

-- On a well-formed store, either Read succeeds, and the reference that it returns is to the operator
-- source of a row that offers the package, or it fails, and no row offers the package.
pub read-Serves :
    (pkg : String) (ds : Datastore)
    → IsValid ds
    → ((ref : OpsrcRef) × (read pkg ds ≡ ok ref) × Serves pkg ref ds.rows)
      ⊎ ((is_ok (read pkg ds) ≡ false) × NoneServes pkg ds.rows)
unfolding read
read-Serves pkg ds v = answered (read pkg ds) refl
  where
    answered :
        (r : Result OpsrcRef)
        → read pkg ds ≡ r
        → ((ref : OpsrcRef) × (read pkg ds ≡ ok ref) × Serves pkg ref ds.rows)
          ⊎ ((is_ok (read pkg ds) ≡ false) × NoneServes pkg ds.rows)
    answered (ok ref) e = inl (
      ref,
      e,
      search_package-Serves ds.rows pkg (get_all_repositories ds.rows) ref
          (origins ds.rows ds.rows (All-lookup_self ds.rows ds.rows v.unique (λ k x h. h)) v.valid)
          e,
    )
    answered (err x) e =
        let failed : is_ok (read pkg ds) ≡ false = ap is_ok e in
        inr (failed, none_serves pkg ds.rows (sym (read-is_ok pkg ds) ∙ failed))

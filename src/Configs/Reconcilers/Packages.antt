-- ===== src/Configs/Reconcilers/Packages.antt =====
-- When checkPackages lets a config pass.
use operator_marketplace.Common.{
  ◌≡◌, refl, ◌∙◌, ◌≢◌, String, Bool, true, false, not, ◌||◌, ◌&&◌, List, [], ◌∷◌, arith, is_some,
  is_empty, is_empty-append, contains, eq_iff,
}
use operator_marketplace.Common.Text.{split, split-ne-nil}
use operator_marketplace.Common.Errors.{Error, Result, ok, err, new_aggregate}
use operator_marketplace.Api.CatalogSourceConfig.{CatalogSourceConfig}
use operator_marketplace.Datastore.{Datastore, read}
use operator_marketplace.Datastore.Metadata.{OpsrcRef}
use operator_marketplace.Datastore.Rows.{get_all_packages}
use operator_marketplace.Datastore.Reading.{is_ok, read-is_ok}
use operator_marketplace.Configs.Cache.{get_package_ids}
use operator_marketplace.Configs.Reconcilers.{note_package, read_packages, verdict, check_packages}

-- Some row of the datastore offers one of the packages.
abbrev pub any_offered : Datastore → List String → Bool
any_offered ds [] = false
any_offered ds (p ∷ ps) = contains p (get_all_packages ds.rows) || any_offered ds ps

pub any_offered_one :
    (ds : Datastore) (pkg : String) (ps : List String)
    → contains pkg (get_all_packages ds.rows) ≡ true
    → contains pkg ps ≡ true
    → any_offered ds ps ≡ true
unfolding contains
any_offered_one ds pkg [] o h = cc
any_offered_one ds pkg (p ∷ ps) o h = ground (arith, eq_iff p pkg, any_offered_one ds pkg ps o)

abbrev all_offered : Datastore → List String → Bool
all_offered ds [] = true
all_offered ds (p ∷ ps) = contains p (get_all_packages ds.rows) && all_offered ds ps

note_package-found :
    (r : Result OpsrcRef) (noted : List Error × Bool)
    → (note_package r noted).1 ≡ (is_ok r || noted.1)
note_package-found (err e) (errors, found) = refl
note_package-found (ok opsrc) (errors, found) = refl

note_package-errors :
    (r : Result OpsrcRef) (noted : List Error × Bool)
    → is_empty (note_package r noted).0 ≡ (is_ok r && is_empty noted.0)
note_package-errors (err e) (errors, found) = ground (arith, is_empty-append errors (e ∷ []))
note_package-errors (ok opsrc) (errors, found) = refl

module _ (ds : Datastore) where
  read_packages-found :
      (ps : List String) (noted : List Error × Bool)
      → (read_packages ds ps noted).1 ≡ (any_offered ds ps || noted.1)
  unfolding read_packages
  read_packages-found [] noted = refl
  read_packages-found (p ∷ ps) noted = ground (
    arith,
    read_packages-found ps (note_package (read p ds) noted),
    note_package-found (read p ds) noted,
    read-is_ok p ds,
  )

  read_packages-errors :
      (ps : List String) (noted : List Error × Bool)
      → is_empty (read_packages ds ps noted).0 ≡ (all_offered ds ps && is_empty noted.0)
  unfolding read_packages
  read_packages-errors [] noted = refl
  read_packages-errors (p ∷ ps) noted = ground (
    arith,
    read_packages-errors ps (note_package (read p ds) noted),
    note_package-errors (read p ds) noted,
    read-is_ok p ds,
  )

  all_offered-any :
      (ps : List String) → ps ≢ [] → all_offered ds ps ≡ true → any_offered ds ps ≡ true
  all_offered-any [] n h = absurd (n refl)
  all_offered-any (p ∷ ps) n h = ground arith

is_some-new_aggregate :
    (show : List Error → String) (errors : List Error)
    → is_some (new_aggregate show errors) ≡ not (is_empty errors)
is_some-new_aggregate show [] = refl
is_some-new_aggregate show (e ∷ es) = refl

is_some-verdict :
    (show : List Error → String) (errors : List Error) (found : Bool)
    → is_some (verdict show (errors, found)) ≡ (not found && not (is_empty errors))
is_some-verdict show errors true = refl
is_some-verdict show errors false = is_some-new_aggregate show errors

-- checkPackages returns an error exactly when no row of the datastore offers any of the packages
-- of the config.
pub check_packages_lem :
    (show : List Error → String) (ds : Datastore) (c : CatalogSourceConfig)
    → is_some (check_packages show ds c) ≡ not (any_offered ds (get_package_ids c.spec.packages))
unfolding check_packages get_package_ids
check_packages_lem show ds c =
    let ids = split "," c.spec.packages in
    let noted = read_packages ds ids ([], false) in
    is_some-verdict show noted.0 noted.1
    ∙ (ground (
      arith,
      read_packages-found ds ids ([], false),
      read_packages-errors ds ids ([], false),
      all_offered-any ds ids (split-ne-nil "," c.spec.packages),
    ))

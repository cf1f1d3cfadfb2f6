-- ===== src/Datastore/Reading.antt =====
-- Read finds exactly the packages that some row offers, and after a Write it names the source
-- that wrote.
use operator_marketplace.Common.{
  String, ◌≡◌, ◌⊎◌, refl, inl, inr, ap, ◌∙◌, Bool, true, false, ◌||◌, Option, none, some, List, [],
  ◌∷◌, All, All-append, arith, ◌==◌, if◌then◌else◌, contains, map, is_some,
}
use operator_marketplace.Common.Maps.{values}
use mathlib.Core.List.{map-append}
use operator_marketplace.Common.Errors.{Error, Result, ok, err}
use operator_marketplace.Datastore.{
  Datastore, last_with_package, found_or, search_package, opsrc_result, read,
}
use operator_marketplace.Datastore.Metadata.{
  OpsrcRef, Repository, OperatorSourceRow, package_of, get_packages,
}
use operator_marketplace.Datastore.Rows.{RowMap, get_all_repositories, get_all_packages}

abbrev pub is_ok : Result OpsrcRef → Bool
is_ok (ok ref) = true
is_ok (err e) = false

pub or_false : (b : Bool) → (b || false) ≡ b
or_false true = refl
or_false false = refl

last_with_package_found :
    (pkg : String) (rs : List Repository) (acc : Option Repository)
    → is_some (last_with_package pkg rs acc) ≡ (contains pkg (map package_of rs) || is_some acc)
unfolding last_with_package contains
last_with_package_found pkg [] acc = refl
last_with_package_found pkg (r ∷ rs) acc =
    ground (arith, last_with_package_found pkg rs (if r.package_name == pkg then some r else acc))

packages_of_repositories :
    (m : RowMap) → map package_of (get_all_repositories m) ≡ get_all_packages m
unfolding get_all_repositories get_all_packages get_packages
packages_of_repositories [] = refl
packages_of_repositories ((uid, row) ∷ m) =
    rw (map-append package_of (values row.repositories), packages_of_repositories m)

is_ok_found : (o : Option Repository) (e : Error) → is_ok (opsrc_result (found_or o e)) ≡ is_some o
is_ok_found none e = refl
is_ok_found (some x) e = refl

search_package-is_ok :
    (pkg : String) (rs : List Repository)
    → is_ok (opsrc_result (search_package pkg rs)) ≡ contains pkg (map package_of rs)
search_package-is_ok pkg [] = unfold contains in refl
search_package-is_ok pkg (r ∷ rs) =
    is_ok_found (last_with_package pkg (r ∷ rs) none) _
    ∙ last_with_package_found pkg (r ∷ rs) none
    ∙ or_false (contains pkg (map package_of (r ∷ rs)))

-- Read succeeds exactly for the packages that some row of the store offers.
pub read-is_ok :
    (pkg : String) (ds : Datastore) → is_ok (read pkg ds) ≡ contains pkg (get_all_packages ds.rows)
unfolding read
read-is_ok pkg ds =
    search_package-is_ok pkg (get_all_repositories ds.rows)
    ∙ ap (contains pkg) (packages_of_repositories ds.rows)

-- Every repository of the package has the reference.
abbrev pub HasRef : String → OpsrcRef → Repository → Type 0
HasRef pkg ref r = ((r.package_name == pkg) ≡ false) ⊎ (r.opsrc ≡ ref)

abbrev IsRef : OpsrcRef → Option Repository → Type 0
IsRef ref none = Unit
IsRef ref (some r) = r.opsrc ≡ ref

last_with_package-IsRef :
    (pkg : String) (ref : OpsrcRef) (rs : List Repository) (acc : Option Repository)
    → All (HasRef pkg ref) rs
    → IsRef ref acc
    → IsRef ref (last_with_package pkg rs acc)
unfolding last_with_package
last_with_package-IsRef pkg ref [] acc h a = a
last_with_package-IsRef pkg ref (r ∷ rs) acc h a =
    last_with_package-IsRef pkg ref rs _ h.1 (next (r.package_name == pkg) refl h.0)
  where
    next :
        (b : Bool)
        → (r.package_name == pkg) ≡ b
        → HasRef pkg ref r
        → IsRef ref (if b then some r else acc)
    next true e (inl n) = cc
    next true e (inr q) = q
    next false e q = a

found-ref :
    (ref : OpsrcRef) (o : Option Repository) (e : Error)
    → IsRef ref o
    → is_ok (opsrc_result (found_or o e)) ≡ true
    → opsrc_result (found_or o e) ≡ ok ref
found-ref ref none e i h = cc
found-ref ref (some x) e i h = ap ok i

search_package-ref :
    (pkg : String) (ref : OpsrcRef) (rs : List Repository)
    → All (HasRef pkg ref) rs
    → is_ok (opsrc_result (search_package pkg rs)) ≡ true
    → opsrc_result (search_package pkg rs) ≡ ok ref
search_package-ref pkg ref [] h e = cc
search_package-ref pkg ref (r ∷ rs) h e =
    found-ref ref (last_with_package pkg (r ∷ rs) none) _
      (last_with_package-IsRef pkg ref (r ∷ rs) none h tt) e

abbrev pub RowHasRef : String → OpsrcRef → String × OperatorSourceRow → Type 0
RowHasRef pkg ref entry = All (HasRef pkg ref) (values entry.1.repositories)

All-repositories :
    (pkg : String) (ref : OpsrcRef) (m : RowMap)
    → All (RowHasRef pkg ref) m
    → All (HasRef pkg ref) (get_all_repositories m)
unfolding get_all_repositories
All-repositories pkg ref [] h = tt
All-repositories pkg ref ((uid, row) ∷ m) h =
    All-append (HasRef pkg ref) (values row.repositories) (get_all_repositories m) h.0
      (All-repositories pkg ref m h.1)

-- Read gives a reference that every repository of the package has, if there is one.
pub read-ref :
    (pkg : String) (ref : OpsrcRef) (ds : Datastore)
    → All (RowHasRef pkg ref) ds.rows
    → contains pkg (get_all_packages ds.rows) ≡ true
    → read pkg ds ≡ ok ref
unfolding read
read-ref pkg ref ds h c =
    search_package-ref pkg ref (get_all_repositories ds.rows) (All-repositories pkg ref ds.rows h)
      (read-is_ok pkg ds ∙ c)

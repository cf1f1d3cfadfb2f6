-- ===== src/Configs/Cache/Stale.antt =====
-- When a config's entry of the cache is stale.
use operator_marketplace.Common.{
  String, ◌≡◌, refl, sym, ap, ◌∙◌, ◌↔◌, inl, inr, true, false, none, some, List, [], ◌∷◌, ◌==◌,
  eq_iff, eq_refl, not, eq-cases, arith, Option-cases,
}
use mathlib.Core.List.{Permᴰ}
use mathlib.Core.List.Permᴰ
use operator_marketplace.Common.Maps.{
  lookup, lookup-insert_self, lookup-delete, lookup-delete_self, IsWithout,
}
use operator_marketplace.Common.Sorting.{sort, sort_iff, Perm-sort}
use operator_marketplace.Api.CatalogSourceConfig.{
  CatalogSourceConfig, CatalogSourceConfigSpec, empty_config_spec,
}
use operator_marketplace.Configs.Cache.{
  Cache, get_package_ids, get, differ, same_length, compare_specs, is_entry_stale, evict, set,
}

abbrev DiffersNowhere : List String → List String → Type 0
DiffersNowhere xs ys = (same_length xs ys ≡ true) × (differ xs ys ≡ false)

DiffersNowhere-eq : (xs ys : List String) → DiffersNowhere xs ys → xs ≡ ys
unfolding same_length differ
DiffersNowhere-eq [] [] h = refl
DiffersNowhere-eq [] (y ∷ ys) h = cc
DiffersNowhere-eq (x ∷ xs) [] h = cc
DiffersNowhere-eq (x ∷ xs) (y ∷ ys) h = ground (arith, eq_iff x y, DiffersNowhere-eq xs ys)

same_length_refl : (xs : List String) → same_length xs xs ≡ true
unfolding same_length
same_length_refl [] = refl
same_length_refl (x ∷ xs) = same_length_refl xs

differ_refl : (xs : List String) → differ xs xs ≡ false
unfolding differ
differ_refl [] = refl
differ_refl (x ∷ xs) = ground (arith, eq_refl x, differ_refl xs)

same_length_sym : (xs ys : List String) → same_length xs ys ≡ same_length ys xs
unfolding same_length
same_length_sym [] [] = refl
same_length_sym [] (y ∷ ys) = refl
same_length_sym (x ∷ xs) [] = refl
same_length_sym (x ∷ xs) (y ∷ ys) = same_length_sym xs ys

same_length_trans :
    (xs ys zs : List String)
    → same_length xs ys ≡ true
    → same_length ys zs ≡ true
    → same_length xs zs ≡ true
unfolding same_length
same_length_trans [] [] zs p q = q
same_length_trans [] (y ∷ ys) zs p q = cc
same_length_trans (x ∷ xs) [] zs p q = cc
same_length_trans (x ∷ xs) (y ∷ ys) [] p q = cc
same_length_trans (x ∷ xs) (y ∷ ys) (z ∷ zs) p q = same_length_trans xs ys zs p q

same_length-Perm : {xs ys : List String} → Permᴰ xs ys → same_length xs ys ≡ true
unfolding same_length
same_length-Perm Permᴰ.nil = refl
same_length-Perm (Permᴰ.cons e p) = same_length-Perm p
same_length-Perm (Permᴰ.swap {l = l} e f) = same_length_refl l
same_length-Perm (Permᴰ.trans {l₁ = xs} {l₂ = ys} {l₃ = zs} p q) =
    same_length_trans xs ys zs (same_length-Perm p) (same_length-Perm q)

-- The tests of IsEntryStale on the two lists pass exactly for permutations.
same_packages_iff :
    (xs ys : List String)
    → ((same_length xs ys ≡ true) × (differ (sort xs) (sort ys) ≡ false)) ↔ Permᴰ xs ys
same_packages_iff xs ys = (
  (λ (l, d). (sort_iff xs ys).0 (DiffersNowhere-eq (sort xs) (sort ys) (same_length-sorted l, d))),
  (λ p. (
    same_length-Perm p,
    ap (differ (sort xs)) (sym ((sort_iff xs ys).1 p)) ∙ differ_refl (sort xs),
  )),
)
  where
    same_length-sorted : same_length xs ys ≡ true → same_length (sort xs) (sort ys) ≡ true
    same_length-sorted l =
        same_length_trans (sort xs) xs (sort ys) (same_length-Perm (Permᴰ.symm (Perm-sort xs)))
          (same_length_trans xs ys (sort ys) l (same_length-Perm (Perm-sort ys)))

compare_specs_iff :
    (spec current : CatalogSourceConfigSpec)
    → ((compare_specs spec current).1 ≡ not (spec.target_namespace == current.target_namespace))
      × (((compare_specs spec current).0 ≡ false) ↔ (
          (spec.target_namespace ≡ current.target_namespace)
          × Permᴰ (get_package_ids spec.packages) (get_package_ids current.packages)))
compare_specs_iff spec current =
    let iff =
      same_packages_iff (get_package_ids spec.packages) (get_package_ids current.packages) in
    elim (eq-cases spec.target_namespace current.target_namespace) [
      | inl (e, p) ↦
          rw e (ground arith, ((λ h. (p, iff.0 (ground arith))), (λ h. ground (arith, iff.1 h.1))))
      | inr (n, q) ↦ rw n (refl, ((λ h. cc), (λ h. absurd (q h.0))))
    ]

entry_found :
    (c : CatalogSourceConfig) (cache : Cache) (spec : CatalogSourceConfigSpec)
    → lookup c.meta.uid cache.entries ≡ some spec
    → is_entry_stale c cache ≡ compare_specs spec c.spec
unfolding is_entry_stale get
entry_found c cache spec h = ground arith

entry_missing :
    (c : CatalogSourceConfig) (cache : Cache)
    → lookup c.meta.uid cache.entries ≡ none
    → is_entry_stale c cache ≡ (false, false)
unfolding is_entry_stale get
entry_missing c cache h = ground arith

-- What Set keeps of a spec.
compare_specs-kept :
    (spec : CatalogSourceConfigSpec)
    → compare_specs
        (record empty_config_spec {
          packages = spec.packages;
          target_namespace = spec.target_namespace;
        })
        spec
      ≡ (false, false)
compare_specs-kept spec = rw (
  eq_refl spec.target_namespace,
  same_length_refl (get_package_ids spec.packages),
  differ_refl (sort (get_package_ids spec.packages)),
)

-- For a config in the cache, IsEntryStale says that the target is stale exactly when the target
-- namespace differs from the cached one, and that the packages are stale unless the namespaces are
-- equal and the two package lists are permutations of each other.
pub is_entry_stale_iff :
    (c : CatalogSourceConfig) (cache : Cache) (spec : CatalogSourceConfigSpec)
    → lookup c.meta.uid cache.entries ≡ some spec
    → ((is_entry_stale c cache).1 ≡ not (spec.target_namespace == c.spec.target_namespace))
      × (((is_entry_stale c cache).0 ≡ false) ↔ (
          (spec.target_namespace ≡ c.spec.target_namespace)
          × Permᴰ (get_package_ids spec.packages) (get_package_ids c.spec.packages)))
is_entry_stale_iff c cache spec h = rw (entry_found c cache spec h) (compare_specs_iff spec c.spec)

-- Right after Set the entry is not stale, and after Evict no entry of the object is: IsEntryStale
-- answers no to both questions.
pub set-not_stale :
    (c : CatalogSourceConfig) (cache : Cache)
    → (is_entry_stale c (set c cache) ≡ (false, false))
      × (is_entry_stale c (evict c cache) ≡ (false, false))
unfolding set evict
set-not_stale c cache = (
  entry_found c (set c cache) _ (lookup-insert_self c.meta.uid _ cache.entries)
      ∙ compare_specs-kept c.spec,
  elim (Option-cases (lookup c.meta.uid cache.entries)) [
    | inl e ↦ entry_missing c (evict c cache) (rw (e, evict) e)
    | inr (spec, e) ↦
        entry_missing c (evict c cache)
          (rw (e, evict) (lookup-delete_self c.meta.uid cache.entries))
  ],
)

-- The entry of the config leaves the cache.
pub evict-IsWithout :
    (c : CatalogSourceConfig) (cache : Cache)
    → IsWithout c.meta.uid cache.entries (evict c cache).entries
unfolding evict
evict-IsWithout c cache uid = elim (Option-cases (lookup c.meta.uid cache.entries)) [
  | inr (spec, e) ↦ rw (e, evict) (lookup-delete c.meta.uid uid cache.entries)
  | inl e ↦
      rw (e, evict)
        (elim (eq-cases c.meta.uid uid) [
          | inl p ↦ rw p.0 (ap (λ k. lookup k cache.entries) (sym p.1) ∙ e)
          | inr p ↦ rw p.0 refl
        ])
]

-- ===== src/AppRegistry/Names.antt =====
-- The package names that `split` of pkg/appregistry/client.go takes apart, and the identities of
-- the metadata that ListPackages builds from them.
use mathlib.Core.Path.{subst}
use text.Mathlib.TextLemmas.{nil-append, cons-append}
use operator_marketplace.Common.{
  String, ◌<>◌, ◌≡◌, refl, sym, ap, ◌∙◌, ◌↔◌, Option, List, [], ◌∷◌, All,
}
use operator_marketplace.Common.Text.{IsFree, split, join, join-split, split-join, split-IsFree}
use operator_marketplace.Common.Errors.{Result, ok, err}
use operator_marketplace.Cluster.{Environment, Options, Package}
use operator_marketplace.Datastore.Metadata.{RegistryMetadata, metadata_id}
use operator_marketplace.AppRegistry.{
  two_parts, split_name, of_package, with_following, metadata_of, namespace_param, listed,
  list_packages,
}

two_parts_sound : (ws : List String) (n r : String) → two_parts ws ≡ ok (n, r) → ws ≡ n ∷ r ∷ []
two_parts_sound [] n r h = cc
two_parts_sound (a ∷ []) n r h = cc
two_parts_sound (a ∷ b ∷ []) n r h = cc
two_parts_sound (a ∷ b ∷ c ∷ ws) n r h = cc

joined : (n r : String) → join "/" (n ∷ r ∷ []) ≡ n <> "/" <> r
unfolding join
joined n r =
    ap (λ t. n <> t) (ap (String.◌∷◌ "/") (sym (nil-append r)) ∙ sym (cons-append "/" "" r))

-- A name splits into a namespace and a repository exactly when it is the two with one slash
-- between them, and neither has a slash.
pub split_name_iff :
    (name n r : String)
    → (split_name name ≡ ok (n, r)) ↔ ((name ≡ n <> "/" <> r) × IsFree "/" n × IsFree "/" r)
unfolding split_name
split_name_iff name n r = (
  (λ h.
      let words = two_parts_sound (split "/" name) n r h in
      let free = subst (All (IsFree "/")) words (split-IsFree "/" name) in
      (sym (join-split "/" name) ∙ ap (join "/") words ∙ joined n r, free.0, free.1.0)),
  (λ (e, fn, fr). ap two_parts (
      ap (split "/") (e ∙ sym (joined n r))
      ∙ split-join "/" (n ∷ r ∷ []) (λ p. cc) (fn, (fr, tt)))),
)

-- The metadata of a package: the two parts of its name, its default release, and no digest.
abbrev pub IsEntry : RegistryMetadata → Package → Type 0
IsEntry m p =
    (p.name ≡ metadata_id m)
    × IsFree "/" m.namespace
    × IsFree "/" m.repository
    × (m.release ≡ p.default)
    × (m.digest ≡ "")

-- The list has the metadata of the packages, in their order.
abbrev pub Describes : List RegistryMetadata → List Package → Type 0
Describes [] [] = Unit
Describes (m ∷ ms) (p ∷ ps) = IsEntry m p × Describes ms ps
Describes _ _ = ⊥

of_package-IsEntry :
    (p : Package) (n r : String) → split_name p.name ≡ ok (n, r) → IsEntry (of_package p (n, r)) p
unfolding metadata_id
of_package-IsEntry p n r h =
    let (name, free, free') = (split_name_iff p.name n r).0 h in (name, free, free', refl, refl)

entry_split :
    (m : RegistryMetadata) (p : Package)
    → IsEntry m p
    → split_name p.name ≡ ok (m.namespace, m.repository)
unfolding metadata_id
entry_split m p (name, free, free', release, digest) =
    (split_name_iff p.name m.namespace m.repository).1 (name, free, free')

entry_of_package :
    (m : RegistryMetadata) (p : Package)
    → IsEntry m p
    → of_package p (m.namespace, m.repository) ≡ m
entry_of_package m p (name, free, free', release, digest) =
    ap
      (λ r. record { namespace = m.namespace; repository = m.repository; release = r; digest = "" })
      (sym release)
    ∙ ap
        (λ d. record {
          namespace = m.namespace;
          repository = m.repository;
          release = m.release;
          digest = d;
        })
        (sym digest)

describe :
    (p : Package) (ps : List Package) (s : Result (String × String))
    → split_name p.name ≡ s
    → (following : Result (List RegistryMetadata))
    → (fs : (ms : List RegistryMetadata) → following ≡ ok ms → Describes ms ps)
    → (ms : List RegistryMetadata) → with_following p s following ≡ ok ms
    → Describes ms (p ∷ ps)
describe p ps (err e) h following fs ms q = cc
describe p ps (ok (n, r)) h (err e) fs ms q = cc
describe p ps (ok (n, r)) h (ok list) fs ms q =
    subst (λ l. Describes l (p ∷ ps)) (listed ms q) (of_package-IsEntry p n r h, fs list refl)
  where
    listed :
        (ms : List RegistryMetadata)
        → with_following p (ok (n, r)) (ok list) ≡ ok ms
        → of_package p (n, r) ∷ list ≡ ms
    listed ms q = cc

metadata_of-Describes :
    (ps : List Package) (ms : List RegistryMetadata) → metadata_of ps ≡ ok ms → Describes ms ps
unfolding metadata_of
metadata_of-Describes [] [] q = tt
metadata_of-Describes [] (m ∷ ms) q = cc
metadata_of-Describes (p ∷ ps) ms q =
    describe p ps (split_name p.name) refl (metadata_of ps) (metadata_of-Describes ps) ms q

metadata_of_described :
    (ps : List Package) (ms : List RegistryMetadata) → Describes ms ps → metadata_of ps ≡ ok ms
unfolding metadata_of
metadata_of_described [] [] d = refl
metadata_of_described [] (m ∷ ms) d = absurd d
metadata_of_described (p ∷ ps) [] d = absurd d
metadata_of_described (p ∷ ps) (m ∷ ms) (e, d) =
    rw (entry_split m p e, metadata_of_described ps ms d)
      (ap (λ x. ok (x ∷ ms)) (entry_of_package m p e))

-- The loop of ListPackages succeeds with a list exactly when the list has, for each package of the
-- registry in order, its metadata: the two parts of its name, which has the form
-- {namespace}/{repository}, its default release, and no digest.
pub metadata_of_iff :
    (ps : List Package) (ms : List RegistryMetadata) → (metadata_of ps ≡ ok ms) ↔ Describes ms ps
metadata_of_iff ps ms = (metadata_of-Describes ps ms, metadata_of_described ps ms)

-- A name of the form {namespace}/{repository}.
abbrev pub HasFormat : Package → Type 0
HasFormat p = (n : String) × (r : String) × (p.name ≡ n <> "/" <> r) × IsFree "/" n × IsFree "/" r

described_by : (p : Package) → HasFormat p → (m : RegistryMetadata) × IsEntry m p
unfolding metadata_id
described_by p (n, r, name, free, free') = (of_package p (n, r), (name, free, free', refl, refl))

pub metadata_of_total :
    (ps : List Package)
    → All HasFormat ps
    → (ms : List RegistryMetadata) × (metadata_of ps ≡ ok ms) × Describes ms ps
metadata_of_total [] h = ([], (metadata_of_iff [] []).1 tt, tt)
metadata_of_total (p ∷ ps) h =
    let (m, entry) = described_by p h.0 in
    let (ms, _, d) = metadata_of_total ps h.1 in
    (m ∷ ms, (metadata_of_iff (p ∷ ps) (m ∷ ms)).1 (entry, d), (entry, d))

module _ (E : Environment) where
  pub list_packages_lem :
      (client : Options) (namespace : String) (s : E.State) (ps : List Package)
      (ms : List RegistryMetadata)
      → ((parameter : Option String) → (E.list_packages client parameter s).0 ≡ ok ps)
      → metadata_of ps ≡ ok ms
      → (list_packages E client namespace s).0 ≡ ok ms
  unfolding list_packages
  list_packages_lem client namespace s ps ms h e = ap (listed E) (h (namespace_param namespace)) ∙ e

-- ===== src/Common/Text/Contains.antt =====
-- What strings.Contains says of texts that are put together.
use Prim.Native.String.{String, ◌++◌ as ◌<>◌}
use mathlib.Core.Path.{◌≡◌, refl, sym, ap, ◌∙◌, subst}
use mathlib.Core.Logic.{inl, inr}
use mathlib.Core.Bool.{Bool, true, false, ◌||◌}
use text.Mathlib.Text.{starts_with}
use text.Mathlib.TextEquality.{starts_with_iff}
use text.Mathlib.TextPositions.{starts_with-append}
use text.Mathlib.TextLemmas.{nil-append, cons-append, append_assoc}
use operator_marketplace.Common.Tests.{Bool-cases}
use operator_marketplace.Common.Text.{contains_text}

or_true : (b : Bool) → (b || true) ≡ true
or_true true = refl
or_true false = refl

pub starts_with-longer :
    (s t sub : String) → starts_with s sub ≡ true → starts_with (s <> t) sub ≡ true
starts_with-longer s t sub h =
    let (rest, e) = (starts_with_iff s sub).0 h in
    (starts_with_iff (s <> t) sub).1 (rest <> t, sym (append_assoc sub rest t) ∙ ap (λ u. u <> t) e)

pub contains_text-start : (s sub : String) → starts_with s sub ≡ true → contains_text s sub ≡ true
unfolding contains_text
contains_text-start String.[] sub h = h
contains_text-start (String.◌∷◌ c s) sub h = rw h refl

-- A text that is contained stays so when more is appended.
pub contains_text-longer :
    (s t sub : String) → contains_text s sub ≡ true → contains_text (s <> t) sub ≡ true
unfolding contains_text
contains_text-longer String.[] t sub h =
    contains_text-start (String.[] <> t) sub (starts_with-longer String.[] t sub h)
contains_text-longer (String.◌∷◌ c s) t sub h =
    rw (cons-append c s t) (elim (Bool-cases (starts_with (String.◌∷◌ c s) sub)) [
      | inl e ↦ rw (sym (cons-append c s t), starts_with-longer (String.◌∷◌ c s) t sub e) refl
      | inr e ↦ rw (contains_text-longer s t sub (rw e at h)) (or_true _)
    ])

-- A text contains what it has in the middle.
pub contains_text-middle : (s sub t : String) → contains_text (s <> (sub <> t)) sub ≡ true
unfolding contains_text
contains_text-middle String.[] sub t =
    rw (nil-append (sub <> t)) (contains_text-start (sub <> t) sub (starts_with-append sub t))
contains_text-middle (String.◌∷◌ c s) sub t =
    rw (cons-append c s (sub <> t), contains_text-middle s sub t) (or_true _)

contains_text-within :
    (t m sub : String)
    → starts_with t m ≡ true
    → contains_text m sub ≡ true
    → contains_text t sub ≡ true
contains_text-within t m sub h q =
    let (rest, e) = (starts_with_iff t m).0 h in
    subst (λ u. contains_text u sub ≡ true) e (contains_text-longer m rest sub q)

-- What a contained text contains is contained.
pub contains_text_trans :
    (t m sub : String)
    → contains_text t m ≡ true
    → contains_text m sub ≡ true
    → contains_text t sub ≡ true
unfolding contains_text
contains_text_trans String.[] m sub h q = contains_text-within String.[] m sub h q
contains_text_trans (String.◌∷◌ c s) m sub h q =
    elim (Bool-cases (starts_with (String.◌∷◌ c s) m)) [
      | inl e ↦ contains_text-within (String.◌∷◌ c s) m sub e q
      | inr e ↦ rw (contains_text_trans s m sub (rw e at h) q) (or_true _)
    ]

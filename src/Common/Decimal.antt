-- ===== src/Common/Decimal.antt =====
-- strconv.Itoa.
use Prim.Native.Nat.{ℕ, ◌/◌, ◌%◌}
use Prim.Native.String.{String, ◌++◌ as ◌<>◌}
use mathlib.Core.Bool.{Bool, true, false}
use mathlib.Core.List.{List, [], ◌∷◌}
use operator_marketplace.Common.Tests.{if◌then◌else◌}

abbrev pick : List String → ℕ → String
pick [] n = ""
pick (d ∷ ds) ℕ.zero = d
pick (d ∷ ds) (ℕ.suc n) = pick ds n

abbrev digit : ℕ → String
digit n = pick ("0" ∷ "1" ∷ "2" ∷ "3" ∷ "4" ∷ "5" ∷ "6" ∷ "7" ∷ "8" ∷ "9" ∷ []) n

abbrev is_nought : ℕ → Bool
is_nought ℕ.zero = true
is_nought (ℕ.suc n) = false

-- The last digits of a number, as many as there are at most.
digits : ℕ → ℕ → String
digits ℕ.zero n = ""
digits (ℕ.suc k) n =
    let front = digits k (n / 10) in
    if is_nought (n / 10) then digit (n % 10) else front <> digit (n % 10)

-- Of a number that is not negative and fits in 32 bits: ten digits are enough.
unfoldable pub itoa : ℕ → String
unfolding digits
itoa n = digits 10 n

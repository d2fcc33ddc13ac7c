-- ===== src/Base/Decimal.antt =====
-- The decimal text of a number: `std::to_string`, and `<<` of an integer that is not negative.
use Prim.Native.Nat.{ℕ, zero, suc, ◌+◌, ◌/◌, ◌%◌}
use mathlib.Core.List.{List, [], ◌∷◌, ◌++◌}
use flowkernel.Base.Tests.{ltb, if◌then◌else◌}

-- At most `fuel` digits; a number below 2 ^ 64 has at most 20.
unfoldable pub digits : ℕ → ℕ → List ℕ
digits zero n = []
digits (suc fuel) n =
    let before = digits fuel (n / 10) in
    if ltb n 10 then (b'0' + n) ∷ [] else before ++ (b'0' + n % 10) ∷ []

unfoldable pub decimal : ℕ → List ℕ
decimal n = digits 20 n

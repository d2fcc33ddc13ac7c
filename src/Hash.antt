-- ===== src/Hash.antt =====
-- `fnv1a_hash` of include/robot_dataflow/common.hpp: a key expression as a 64-bit number.
-- A text is the list of its `char`s, each as the byte that `static_cast<uint8_t>` makes of it.
pub mod Laws
use flowkernel.Base.{ℕ, ◌<◌, List, [], ◌∷◌, bit_xor, mul64}

abbrev pub Bytes : Type 0
Bytes = List ℕ

abbrev pub fnv_offset_basis : ℕ
fnv_offset_basis = 0xcbf29ce484222325

abbrev pub fnv_prime : ℕ
fnv_prime = 0x100000001b3

-- One round of the loop, and the loop from a given `hash`.
unfoldable pub fnv_round : ℕ → ℕ → ℕ
fnv_round hash c = mul64 (bit_xor hash c) fnv_prime

unfoldable pub fnv_from : ℕ → Bytes → ℕ
fnv_from hash [] = hash
fnv_from hash (c ∷ str) = fnv_from (fnv_round hash c) str

unfoldable pub fnv1a_hash : Bytes → ℕ
fnv1a_hash str = fnv_from fnv_offset_basis str

abbrev pub IsBytes : Bytes → Type 0
IsBytes [] = Unit {0}
IsBytes (c ∷ str) = (c < 256) × IsBytes str

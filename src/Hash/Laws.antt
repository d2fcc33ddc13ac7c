-- ===== src/Hash/Laws.antt =====
-- What the hash keeps apart. Each round is a bijection of the 64-bit numbers, since the prime is
-- odd.
use native.Mathlib.Nat.{div-add-mod, add-mul-mod_self_right}
use flowkernel.Base.{
  ℕ, ◌+◌, ◌*◌, ◌/◌, ◌%◌, ◌^◌, ◌<◌, ◌≡◌, ◌≢◌, ◌↔◌, refl, sym, ap, ◌∙◌, [], ◌∷◌, ◌++◌, arith, bit_xor,
}
use flowkernel.Base.Bits.{bit_xor_lt, bit_xor_comm, bit_xor_twice}
use flowkernel.Hash.{Bytes, IsBytes, fnv_prime, fnv_offset_basis, fnv_round, fnv_from, fnv1a_hash}

-- The inverse of the prime modulo 2 ^ 64.
abbrev prime_inverse : ℕ
prime_inverse = 0xce965057aff6957b

mul-mod_left : (a b m : ℕ) → (a % m) * b % m ≡ a * b % m
mul-mod_left a b m =
    let e : a * b ≡ (a % m) * b + (a / m * b) * m =
      omega (arith, ap (λ (t : ℕ). t * b) (div-add-mod a m)) in
    sym (ap (λ (t : ℕ). t % m) e ∙ add-mul-mod_self_right ((a % m) * b) (a / m * b) m)

unmultiply : (x : ℕ) → x < 2 ^ 64 → (x * fnv_prime % 2 ^ 64) * prime_inverse % 2 ^ 64 ≡ x
unmultiply x h = mul-mod_left (x * fnv_prime) prime_inverse (2 ^ 64) ∙ omega arith

fnv_round_lt : (hash c : ℕ) → fnv_round hash c < 2 ^ 64
unfolding fnv_round
fnv_round_lt hash c = omega arith

fnv_from_lt : (hash : ℕ) (str : Bytes) → hash < 2 ^ 64 → fnv_from hash str < 2 ^ 64
unfolding fnv_from
fnv_from_lt hash [] h = h
fnv_from_lt hash (c ∷ str) h = fnv_from_lt (fnv_round hash c) str (fnv_round_lt hash c)

-- A round can be undone as far as the `^`.
xor_of_round :
    (hash other c d : ℕ)
    → hash < 2 ^ 64
    → other < 2 ^ 64
    → c < 256
    → d < 256
    → fnv_round hash c ≡ fnv_round other d
    → bit_xor hash c ≡ bit_xor other d
unfolding fnv_round
xor_of_round hash other c d fits fits' hc hd e =
    sym (unmultiply (bit_xor hash c) (bit_xor_lt 64 hash c fits (omega arith)))
    ∙ ap (λ (t : ℕ). t * prime_inverse % 2 ^ 64) e
    ∙ unmultiply (bit_xor other d) (bit_xor_lt 64 other d fits' (omega arith))

-- Under one byte, different states stay different.
fnv_round_injective :
    (hash other c : ℕ)
    → hash < 2 ^ 64
    → other < 2 ^ 64
    → c < 256
    → fnv_round hash c ≡ fnv_round other c
    → hash ≡ other
fnv_round_injective hash other c fits fits' hc e =
    let swapped : bit_xor c hash ≡ bit_xor c other =
      bit_xor_comm 64 c hash (omega arith) fits
      ∙ xor_of_round hash other c c fits fits' hc hc e
      ∙ bit_xor_comm 64 other c fits' (omega arith) in
    sym (bit_xor_twice 64 c hash (omega arith) fits)
    ∙ ap (bit_xor c) swapped
    ∙ bit_xor_twice 64 c other (omega arith) fits'

-- In one state, different bytes lead to different states.
fnv_round_separates :
    (hash c d : ℕ) → hash < 2 ^ 64 → c < 256 → d < 256 → fnv_round hash c ≡ fnv_round hash d → c ≡ d
fnv_round_separates hash c d fits hc hd e =
    sym (bit_xor_twice 64 hash c fits (omega arith))
    ∙ ap (bit_xor hash) (xor_of_round hash hash c d fits fits hc hd e)
    ∙ bit_xor_twice 64 hash d fits (omega arith)

fnv_from_injective :
    (hash other : ℕ) (str : Bytes)
    → hash < 2 ^ 64
    → other < 2 ^ 64
    → IsBytes str
    → fnv_from hash str ≡ fnv_from other str
    → hash ≡ other
unfolding fnv_from
fnv_from_injective hash other [] fits fits' b e = e
fnv_from_injective hash other (c ∷ str) fits fits' b e =
    fnv_round_injective hash other c fits fits' b.0 (
      fnv_from_injective (fnv_round hash c) (fnv_round other c) str (fnv_round_lt hash c)
        (fnv_round_lt other c) b.1 e)

fnv_from-append :
    (hash : ℕ) (xs ys : Bytes) → fnv_from hash (xs ++ ys) ≡ fnv_from (fnv_from hash xs) ys
unfolding fnv_from
fnv_from-append hash [] ys = refl
fnv_from-append hash (c ∷ xs) ys = fnv_from-append (fnv_round hash c) xs ys

-- Every hash fits 64 bits.
pub fnv1a_hash_lt : (str : Bytes) → fnv1a_hash str < 2 ^ 64
unfolding fnv1a_hash
fnv1a_hash_lt str = fnv_from_lt fnv_offset_basis str (omega arith)

fnv1a_hash-append : (xs ys : Bytes) → fnv1a_hash (xs ++ ys) ≡ fnv_from (fnv1a_hash xs) ys
unfolding fnv1a_hash
fnv1a_hash-append xs ys = fnv_from-append fnv_offset_basis xs ys

-- Two keys with a common end of bytes have the same hash exactly when what stands before that end
-- has the same hash: the end neither makes nor hides a collision.
pub fnv1a_hash_common_end :
    (p q str : Bytes)
    → IsBytes str
    → (fnv1a_hash (p ++ str) ≡ fnv1a_hash (q ++ str)) ↔ (fnv1a_hash p ≡ fnv1a_hash q)
fnv1a_hash_common_end p q str b = (
  λ e.
      fnv_from_injective (fnv1a_hash p) (fnv1a_hash q) str (fnv1a_hash_lt p) (fnv1a_hash_lt q) b
        (sym (fnv1a_hash-append p str) ∙ e ∙ fnv1a_hash-append q str),
  λ e. fnv1a_hash-append p str ∙ ap (λ (t : ℕ). fnv_from t str) e ∙ sym (fnv1a_hash-append q str),
)

-- Two keys of bytes that differ in exactly one byte never have the same hash.
pub fnv1a_hash_one_byte :
    (p str : Bytes) (c d : ℕ)
    → IsBytes str
    → c < 256
    → d < 256
    → c ≢ d
    → fnv1a_hash (p ++ c ∷ str) ≢ fnv1a_hash (p ++ d ∷ str)
unfolding fnv_from
fnv1a_hash_one_byte p str c d b hc hd differ e = differ (
    fnv_round_separates (fnv1a_hash p) c d (fnv1a_hash_lt p) hc hd (
      fnv_from_injective (fnv_round (fnv1a_hash p) c) (fnv_round (fnv1a_hash p) d) str
        (fnv_round_lt (fnv1a_hash p) c) (fnv_round_lt (fnv1a_hash p) d) b
        (sym (fnv1a_hash-append p (c ∷ str)) ∙ e ∙ fnv1a_hash-append p (d ∷ str))))

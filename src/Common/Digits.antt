-- ===== src/Common/Digits.antt =====
-- Numbers as byte strings of a fixed length, the highest byte first.
use Prim.Native.Nat.{ℕ, zero, suc, ◌+◌, ◌*◌, ◌/◌, ◌%◌, ◌^◌, ◌<◌}
use mathlib.Core.Path.{◌≡◌, refl, ap, sym, ◌∙◌}
use mathlib.Core.List.{[], ◌∷◌, ◌++◌}
use native.Mathlib.Omega.{arith}
use gocoin.Common.Lists.{Bytes, length, take, drop, length-append}

-- The lowest `n` bytes of a number.
unfoldable pub digits : ℕ → ℕ → Bytes
digits zero x = []
digits (suc n) x = digits n (x / 256) ++ (x % 256 ∷ [])

-- The number that starts with `acc` and goes on with the bytes.
unfoldable pub number_from : ℕ → Bytes → ℕ
number_from acc [] = acc
number_from acc (c ∷ cs) = number_from (acc * 256 + c) cs

pub length-digits : (n x : ℕ) → length (digits n x) ≡ n
unfolding digits
length-digits zero x = refl
length-digits (suc n) x =
    omega (arith, length-append (digits n (x / 256)) (x % 256 ∷ []), length-digits n (x / 256))

number_from-append :
    (acc : ℕ) (xs ys : Bytes) → number_from acc (xs ++ ys) ≡ number_from (number_from acc xs) ys
unfolding number_from
number_from-append acc [] ys = refl
number_from-append acc (x ∷ xs) ys = number_from-append (acc * 256 + x) xs ys

pub number_from-digits : (n x : ℕ) → x < 256 ^ n → number_from 0 (digits n x) ≡ x
unfolding number_from digits
number_from-digits zero x h = omega arith
number_from-digits (suc n) x h =
    number_from-append 0 (digits n (x / 256)) (x % 256 ∷ [])
    ∙ omega (arith, number_from-digits n (x / 256) (grind arith))

pub take-length : (xs ys : Bytes) → take (length xs) (xs ++ ys) ≡ xs
take-length [] ys = refl
take-length (x ∷ xs) ys = ap (λ l. x ∷ l) (take-length xs ys)

pub drop-length : (xs ys : Bytes) → drop (length xs) (xs ++ ys) ≡ ys
drop-length [] ys = refl
drop-length (x ∷ xs) ys = drop-length xs ys

-- The first and the second of two numbers that are written one after the other.
pub take-digits : (n x : ℕ) (r : Bytes) → take n (digits n x ++ r) ≡ digits n x
take-digits n x r =
    ap (λ k. take k (digits n x ++ r)) (sym (length-digits n x)) ∙ take-length (digits n x) r

pub drop-digits : (n x : ℕ) (r : Bytes) → drop n (digits n x ++ r) ≡ r
drop-digits n x r =
    ap (λ k. drop k (digits n x ++ r)) (sym (length-digits n x)) ∙ drop-length (digits n x) r

-- ===== src/Chain/Make/Signed.antt =====
-- What is left of the signature that `AddEpochSig` adds: libraries/chain/space/protocol/tx.go.
use gocoin.Chain.Make.{add_epoch_sig, put_uint32}
use gocoin.Chain.Tx.{Tx}
use mathlib.Core.List.{append-nil}
use gocoin.Common.{
  Bytes, [], ap, drop, length, ok, refl, suc, take, zero, ℕ, ◌%◌, ◌++◌, ◌^◌, ◌∷◌, ◌≡◌,
}

take-append : (xs ys : Bytes) → take (length xs) (xs ++ ys) ≡ xs
take-append [] ys = refl
take-append (x ∷ xs) ys = ap (λ l. x ∷ l) (take-append xs ys)

drop-nil : (n : ℕ) → drop {A = ℕ} n [] ≡ []
drop-nil zero = refl
drop-nil (suc n) = refl

drop-append : (xs ys : Bytes) → drop (length (xs ++ ys)) xs ≡ []
drop-append [] ys = drop-nil (length ys)
drop-append (x ∷ xs) ys = drop-append xs ys

-- On a transaction with a payload, `AddEpochSig` only changes the first byte of the payload to
-- 7: nothing of the signature, whatever it is, is kept.
pub add_epoch_sig-drops :
    (sig : Bytes) (tx : Tx) (ptype : ℕ) (rest : Bytes)
    → tx.payload ≡ ptype ∷ rest
    → add_epoch_sig sig tx ≡ ok (record tx { payload = 7 ∷ rest })
unfolding add_epoch_sig
add_epoch_sig-drops sig tx ptype rest e =
    rw
      (
        e,
        take-append rest (put_uint32 (length sig % 2 ^ 32) ++ sig),
        drop-append rest (put_uint32 (length sig % 2 ^ 32) ++ sig),
        append-nil rest,
      )
      refl

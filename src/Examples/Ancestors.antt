-- ===== src/Examples/Ancestors.antt =====
-- The common ancestor of two headers at concrete inputs.
use gocoin.Common.{
  Bool-cases, Bytes, Option, [], ap, arith, if◌then◌else◌, inl, inr, ltb, none, refl, some, sym, ℕ,
  ◌∙◌, ◌∷◌, ◌≡◌, ◌⊎◌,
}
use gocoin.Chain.Storage.{KeyValue, Key, header_key, get_header, header_at, number_of}
use gocoin.Chain.Storage.Ancestor.{
  find_common_ancestor, find_common_ancestor-Ends, IsNumbered, IsAncestor, found, missing,
}
use gocoin.Chain.Tx.{Header}
use gocoin.Examples.Memory.{Memory, memory}
use gocoin.Examples.Blocks.{services, head}

-- Five headers are stored, under any hash.
abbrev small_get : Key → Bytes
small_get (header_key number hash) = if ltb number 5 then number ∷ [] else []
small_get _ = []

abbrev header_of : ℕ → Header
header_of n = record (head.header) { number = n; uncle_hash = 7 }

abbrev small_decode : Bytes → Option Header
small_decode [] = none
small_decode (n ∷ rest) = some (header_of n)

abbrev small : KeyValue Memory
small = record memory { get = λ db k. small_get k; decode_header = small_decode }

abbrev nothing : Memory
nothing = λ k. []

some_inj : {h h' : Header} → some h ≡ some h' → h ≡ h'
some_inj e = cc

numbered :
    (number : ℕ) (h : Header)
    → header_at small (small_get (header_key number 0)) ≡ some h
    → number_of h ≡ number
numbered number h e = elim (Bool-cases (ltb number 5)) [
  | inr far ↦ absurd (ground arith)
  | inl near ↦
      let same : some (header_of number) ≡ some h = ground arith in
      sym (ap (λ (z : Header). number_of z) (some_inj same)) ∙ ground arith
]

small-IsNumbered : IsNumbered small services nothing
unfolding get_header
small-IsNumbered = record {
  number_is = λ hash number h e. numbered number h e;
  not_last = λ hash. refl;
}

find_common_ancestor-Ends_example :
    ((c : Header) × (find_common_ancestor small services nothing 5 (header_of 4) (header_of 2)
        ≡ found c)
      × (IsAncestor small services nothing c (header_of 4))
      × ((d : Header) × IsAncestor small services nothing d (header_of 2)
          × (services.header_hash c ≡ services.header_hash d)))
    ⊎ (find_common_ancestor small services nothing 5 (header_of 4) (header_of 2) ≡ missing)
find_common_ancestor-Ends_example =
    find_common_ancestor-Ends small services nothing small-IsNumbered 5 (header_of 4) (header_of 2)
      (omega arith) (omega arith)

-- ===== src/State/Attributes.antt =====
-- The attribute map of an account, and its lists of keys and values in the trie.
use gocoin.Common.{
  Bytes, Dict, List, [], arith, bytes_beq, bytes_beq_iff, erase, false, insert, lookup,
  lookup-erase, lookup-insert, none, refl, ◌++◌, ◌∙◌, ◌∷◌, ◌≡◌, bytes_eq,
}
use mathlib.Core.List.{append-nil, append_assoc}
use gocoin.State.Account.{fill_attributes, keys, values}

-- No key is listed twice.
abbrev pub IsDistinct : Dict Bytes Bytes → Type 0
IsDistinct [] = Unit {0}
IsDistinct ((k, v) ∷ d) = (lookup k d ≡ none) × IsDistinct d

pub insert-IsDistinct :
    (k v : Bytes) (d : Dict Bytes Bytes) → IsDistinct d → IsDistinct (insert k v d)
unfolding insert lookup
insert-IsDistinct k v [] h = (refl, tt)
insert-IsDistinct k v ((j, w) ∷ d) h = ground (
  arith,
  insert-IsDistinct k v d h.1,
  lookup-insert j k v d,
  bytes_beq_iff k j,
  bytes_beq_iff j k,
)

pub erase-IsDistinct : (k : Bytes) (d : Dict Bytes Bytes) → IsDistinct d → IsDistinct (erase k d)
unfolding erase lookup
erase-IsDistinct k [] h = tt
erase-IsDistinct k ((j, w) ∷ d) h = ground (arith, erase-IsDistinct k d h.1, lookup-erase j k d)

pub fill_attributes-IsDistinct :
    (ks vs : List Bytes) (d : Dict Bytes Bytes)
    → IsDistinct d
    → IsDistinct (fill_attributes ks vs d)
unfolding fill_attributes
fill_attributes-IsDistinct [] vs d h = h
fill_attributes-IsDistinct (k ∷ ks) [] d h = h
fill_attributes-IsDistinct (k ∷ ks) (v ∷ vs) d h =
    fill_attributes-IsDistinct ks vs (insert k v d) (insert-IsDistinct k v d h)

insert_new :
    (k v : Bytes) (e : Dict Bytes Bytes) → lookup k e ≡ none → insert k v e ≡ e ++ ((k, v) ∷ [])
unfolding insert lookup
insert_new k v [] h = refl
insert_new k v ((j, w) ∷ e) h = ground (arith, insert_new k v e)

lookup_middle :
    (j k v : Bytes) (e d : Dict Bytes Bytes)
    → lookup j (e ++ ((k, v) ∷ d)) ≡ none
    → bytes_beq j k ≡ false
unfolding lookup
lookup_middle j k v [] d h = ground arith
lookup_middle j k v ((i, w) ∷ e) d h = ground (arith, lookup_middle j k v e d)

absent_before :
    (k v : Bytes) (e d : Dict Bytes Bytes) → IsDistinct (e ++ ((k, v) ∷ d)) → lookup k e ≡ none
unfolding lookup
absent_before k v [] d h = refl
absent_before k v ((i, w) ∷ e) d h = ground (
  arith,
  absent_before k v e d h.1,
  lookup_middle i k v e d h.0,
  bytes_beq_iff k i,
  bytes_beq_iff i k,
)

fill_from :
    (d e : Dict Bytes Bytes) → IsDistinct (e ++ d) → fill_attributes (keys d) (values d) e ≡ e ++ d
unfolding fill_attributes
fill_from [] e h = rw append-nil
fill_from ((k, v) ∷ d) e h =
    rw (insert_new k v e (absent_before k v e d h))
      (fill_from d (e ++ ((k, v) ∷ [])) (rw append_assoc h) ∙ append_assoc e ((k, v) ∷ []) d)

-- An attribute map without a repeated key, written out as its list of keys and its list of
-- values and read back, is the same map.
pub fill_attributes-keys :
    (d : Dict Bytes Bytes) → IsDistinct d → fill_attributes (keys d) (values d) [] ≡ d
fill_attributes-keys d h = fill_from d [] h

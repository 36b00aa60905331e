-- ===== src/Examples/Store.antt =====
-- A trie that is an association list, and a codec that writes an account as a list of numbers.
use gocoin.State.Account.{Account, keys, values, AccountObject, account_of}
use gocoin.State.Space.{Space, space_of}
use gocoin.State.Backend.{Backend, IsTrie, IsCodec}
use mathlib.Core.List.{append-nil}
use gocoin.Common.{
  Bool, Bytes, Dict, List, Option, [], arith, erase, false, inl, inr, insert, lookup, lookup-erase,
  lookup-insert, negsuc, none, pos, refl, some, suc, zero, ℕ, ℤ, ◌++◌, ◌+◌, ◌∷◌, ◌≡◌, ◌≢◌, ◌⊎◌,
  nat_eq,
}

abbrev pub Store : Type 0
Store = Dict ℕ Bytes

-- A list of byte strings: 1 before each string, its bytes with 2 added, and 0 at the end.
abbrev put_string : Bytes → Bytes → Bytes
put_string [] rest = rest
put_string (c ∷ cs) rest = suc (suc c) ∷ put_string cs rest

abbrev pub put_list : List Bytes → Bytes → Bytes
put_list [] rest = 0 ∷ rest
put_list (x ∷ xs) rest = 1 ∷ put_string x (put_list xs rest)

-- The string that the input is in the middle of, the strings after it, and the rest.
abbrev pub take_list : Bytes → Bytes × List Bytes × Bytes
take_list [] = ([], [], [])
take_list (zero ∷ r) = ([], [], r)
take_list (suc zero ∷ r) = let (x, xs, r') = take_list r in ([], x ∷ xs, r')
take_list (suc (suc c) ∷ r) = let (x, xs, r') = take_list r in (c ∷ x, xs, r')

take_list-put_string :
    (x rest : Bytes)
    → take_list (put_string x rest) ≡ (let (y, ys, r) = take_list rest in (x ++ y, ys, r))
take_list-put_string [] rest = refl
take_list-put_string (c ∷ cs) rest = ground (arith, take_list-put_string cs rest)

pub take_list-put_list :
    (xs : List Bytes) (rest : Bytes) → take_list (put_list xs rest) ≡ ([], xs, rest)
take_list-put_list [] rest = refl
take_list-put_list (x ∷ xs) rest =
    ground
      (arith, take_list-put_string x (put_list xs rest), take_list-put_list xs rest, append-nil x)

abbrev id_of : Option ℕ → ℕ
id_of none = 0
id_of (some i) = i

abbrev encode : Account → Option Bytes
encode acc = elim acc.balance [
  | some (pos n) ↦ some (
      id_of acc.bind_space_id
      ∷ n
      ∷ acc.wallet_id
      ∷ put_list (acc.code_hash ∷ []) (put_list acc.account_key (put_list acc.account_value [])))
  | _ ↦ none
]

abbrev first : List Bytes → Bytes
first [] = []
first (x ∷ xs) = x

abbrev decode : Bytes → Option Account
decode (id ∷ n ∷ w ∷ rest) =
    let (_, code, r1) = take_list rest in
    let (_, ks, r2) = take_list r1 in
    let (_, vs, _) = take_list r2 in
    some (record {
      bind_space_id = some id;
      balance = some (pos n);
      wallet_id = w;
      code_hash = first code;
      account_key = ks;
      account_value = vs;
    })
decode _ = none

abbrev encode_sp : Space → Option Bytes
encode_sp sp = elim sp.balance [ some (pos n) ↦ some (sp.nonce ∷ n ∷ sp.bind_addr) | _ ↦ none ]

abbrev decode_sp : Bytes → Option Space
decode_sp (k ∷ n ∷ l) = some (record { nonce = k; balance = some (pos n); bind_addr = l })
decode_sp _ = none

abbrev found : Option Bytes → Bytes × Bool
found none = ([], false)
found (some v) = (v, false)

-- The account 7 with the balance 20.
abbrev pub seven : Bytes
seven = 0 ∷ 20 ∷ 3 ∷ 1 ∷ 0 ∷ 0 ∷ 0 ∷ []

-- The root 0 opens the empty trie, every other root one with an account and a space.
abbrev open_at : ℕ → Option Store
open_at zero = some []
open_at (suc r) = some ((7, seven) ∷ (8, seven) ∷ [])

abbrev sum : Bytes → ℕ
sum [] = 0
sum (c ∷ cs) = c + sum cs

abbrev root_of : Store → ℕ
root_of [] = 0
root_of ((k, v) ∷ t) = suc (k + (sum v + root_of t))

abbrev pub store : Backend Store
store = record {
  open_trie = open_at;
  try_get = λ t k. found (lookup k t);
  try_update = λ t k v. (insert k v t, false);
  try_delete = λ t k. (erase k t, false);
  commit_to = λ t. (root_of t, false);
  encode_account = encode;
  decode_account = decode;
  encode_space = encode_sp;
  decode_space = decode_sp;
}

pub store-IsTrie : IsTrie store
store-IsTrie = record {
  get-update = λ t j k v. ground (arith, lookup-insert j k v t);
  get-delete = λ t j k. ground (arith, lookup-erase j k t);
  update_ok = λ t k v. refl;
  delete_ok = λ t k. refl;
}

sign : (x : ℤ) → ((n : ℕ) × (x ≡ pos n)) ⊎ ((n : ℕ) × (x ≡ negsuc n))
sign (pos n) = inl (n, refl)
sign (negsuc n) = inr (n, refl)

decode-encode :
    (o : AccountObject) (enc : Bytes)
    → encode (account_of o) ≡ some enc
    → (enc ≢ []) × (decode enc ≡ some (account_of o))
unfolding account_of
decode-encode o enc e = elim (sign o.balance) [
  | inl (n, p) ↦ ground (
    arith,
    e,
    p,
    take_list-put_list (o.code_hash ∷ [])
        (put_list (keys o.attribute) (put_list (values o.attribute) [])),
    take_list-put_list (keys o.attribute) (put_list (values o.attribute) []),
    take_list-put_list (values o.attribute) [],
  )
  | inr (n, p) ↦ ground (arith, e, p)
]

pub store-IsCodec : IsCodec store
unfolding account_of space_of
store-IsCodec = record {
  decode-encode_account = decode-encode;
  encode_account_iff = λ o. elim (sign o.balance) [
    | inl (n, p) ↦ (λ e. ground (arith, p), λ h. absurd (h (ground (arith, p))))
    | inr (n, p) ↦ (λ e h. ground (arith, p), λ h. ground (arith, p))
  ];
  decode-encode_space = λ o enc e. elim (sign o.balance) [
    | inl (n, p) ↦ ground (arith, e, p)
    | inr (n, p) ↦ ground (arith, e, p)
  ];
  encode_space_iff = λ o. elim (sign o.balance) [
    | inl (n, p) ↦ (λ e. ground (arith, p), λ h. absurd (h (ground (arith, p))))
    | inr (n, p) ↦ (λ e h. ground (arith, p), λ h. ground (arith, p))
  ];
}

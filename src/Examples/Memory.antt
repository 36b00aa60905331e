-- ===== src/Examples/Memory.antt =====
-- A database that is a function, with a codec of headers and of bodies without transactions.
use gocoin.Chain.Storage.Laws.{IsKeyValue, key_beq}
use gocoin.Chain.Tx.{Header}
use gocoin.Common.{
  Bytes, List, Option, [], arith, false, if◌then◌else◌, negsuc, none, pos, refl, some, ◌∷◌,
}
use gocoin.Chain.Storage.{Key, KeyValue, Body, TxLookupEntry}
use gocoin.Examples.Store.{put_list, take_list, take_list-put_list}

abbrev pub Memory : Type 0
Memory = Key → Bytes

abbrev pub write : Key → Bytes → Memory → Memory
write k bytes db = λ j. if key_beq j k then bytes else db j

abbrev pub encode_head : Header → Option Bytes
encode_head h = elim h.gas_used [
  | pos g ↦ some (
      h.uncle_hash
      ∷ h.number
      ∷ h.id_index
      ∷ h.wallet_id
      ∷ h.group_id
      ∷ h.timestamp
      ∷ g
      ∷ h.space_root
      ∷ h.acc_root
      ∷ h.group_root
      ∷ h.coin_root
      ∷ h.tx_root
      ∷ h.consensus_group_hash
      ∷ h.extra_hash
      ∷ put_list (h.version ∷ h.percent ∷ h.pk ∷ h.sign ∷ h.liquidation_hash ∷ h.extra_index ∷ [])
          [])
  | negsuc n ↦ none
]

abbrev with_lists : Header → List Bytes → Option Header
with_lists h (version ∷ percent ∷ pk ∷ sign ∷ liquidation ∷ extra ∷ []) = some (record h {
  version = version;
  percent = percent;
  pk = pk;
  sign = sign;
  liquidation_hash = liquidation;
  extra_index = extra;
})
with_lists h _ = none

abbrev decode_head : Bytes → Option Header
decode_head (a ∷ b ∷ c ∷ d ∷ e ∷ f ∷ g ∷ i ∷ j ∷ k ∷ l ∷ m ∷ n ∷ o ∷ rest) =
    with_lists
      (record {
        uncle_hash = a;
        number = b;
        id_index = c;
        wallet_id = d;
        group_id = e;
        timestamp = f;
        gas_used = pos g;
        version = [];
        percent = [];
        pk = [];
        sign = [];
        liquidation_hash = [];
        extra_index = [];
        space_root = i;
        acc_root = j;
        group_root = k;
        coin_root = l;
        tx_root = m;
        consensus_group_hash = n;
        extra_hash = o;
      })
      (take_list rest).1
decode_head _ = none

abbrev encode_bare : Body → Option Bytes
encode_bare body = elim body.transactions [ [] ↦ some (1 ∷ body.extra_data) | tx ∷ txs ↦ none ]

abbrev decode_bare : Bytes → Option Body
decode_bare [] = none
decode_bare (c ∷ cs) = some (record { transactions = []; extra_data = cs })

abbrev decode_place : Bytes → Option TxLookupEntry
decode_place (h ∷ b ∷ i ∷ rest) = some (record { block_hash = h; block_index = b; index = i })
decode_place _ = none

abbrev pub memory : KeyValue Memory
memory = record {
  get = λ db k. db k;
  put = λ db k bytes. (write k bytes db, false);
  delete = λ db k. (write k [] db, false);
  encode_header = encode_head;
  decode_header = decode_head;
  encode_body = encode_bare;
  decode_body = decode_bare;
  encode_entry = λ e. some (e.block_hash ∷ e.block_index ∷ e.index ∷ []);
  decode_entry = decode_place;
}

pub memory-IsKeyValue : IsKeyValue memory
memory-IsKeyValue = record {
  get-put = λ db j k bytes e. refl;
  get-delete = λ db j k e. refl;
  decode-encode_header = λ h bytes e. (
    λ n. ground arith,
    ground (
      arith,
      take_list-put_list
          (h.version ∷ h.percent ∷ h.pk ∷ h.sign ∷ h.liquidation_hash ∷ h.extra_index ∷ []) [],
    ),
  );
  decode-encode_body = λ body bytes e. (λ n. ground arith, ground arith);
  decode-encode_entry = λ entry bytes e. (λ n. ground arith, ground arith);
}

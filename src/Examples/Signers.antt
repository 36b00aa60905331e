-- ===== src/Examples/Signers.antt =====
-- The groups of the threshold signatures at concrete inputs.
use gocoin.Bls.Saved.{load_bls_info, copy_members}
use gocoin.Bls.Requests.{on_request, on_request-piled, on_request-started}
use gocoin.Bls.Saved.Restored.{IsDisk, load_bls_info-info_of}
use gocoin.Common.{
  Bytes, Dict, List, Option, [], ap, arith, drop, drop-length, erase, false, insert, length, lookup,
  lookup-insert, none, refl, some, suc, sym, take, take-length, true, zero, ℕ, ◌*◌, ◌++◌, ◌+◌, ◌<◌,
  ◌∙◌, ◌∷◌, ◌≡◌, ◌≤◌, nat_eq, bytes_eq,
}
use gocoin.Bls.{Curve, BlsGroup, add_msg, BlsMsg, take_shares, Registry, get_group}
use gocoin.Bls.Peers.{add_msgs, add_msgs-told, all_share, has_share}
use gocoin.Bls.Create.{
  create_bls_group, share_members, master_shares, BlsGroupInfo, Disk, save_bls_info, info_of,
}
use gocoin.Bls.Create.Shares.{IsCurve, IsHonest, HasSent, known_of, create_bls_group-share}
use gocoin.Bls.Signs.{IsReadable}
use gocoin.State.Db.{elem}

abbrev first_of : Bytes → ℕ → ℕ
first_of [] old = old
first_of (x ∷ xs) old = x

-- Keys, ids and signatures are numbers, and a text is one number.
abbrev pub curve : Curve ℕ ℕ ℕ ℕ
curve = record {
  id_of = λ a. a;
  no_id = 0;
  no_sec = 0;
  no_pub = 0;
  no_sign = 0;
  id_hex = λ i. i ∷ [];
  set_id_hex = first_of;
  sec_hex = λ k. k ∷ [];
  set_sec_hex = first_of;
  pub_hex = λ p. p ∷ [];
  set_pub_hex = first_of;
  sign_hex = λ s. s ∷ [];
  set_sign_hex = first_of;
  public_key = λ k. k + 100;
  master_secret_key = λ k n. k ∷ [];
  share = λ msk i old. first_of msk 0 * 10 + i;
  recover_sec = λ secs ids old. first_of secs old;
  recover_pub = λ pubs ids old. first_of pubs old;
  recover_sign = λ signs ids old. first_of signs old;
  sign_text = λ k msg. k;
  verify_text = λ s p msg. true;
  address_hex = λ a. a ∷ [];
  address_text = λ a. a ∷ [];
}

curve-IsCurve : IsCurve curve
curve-IsCurve = record { sec_read = λ s old. refl; share_any = λ msk i old. refl }

pub curve-IsReadable : IsReadable curve
curve-IsReadable = record {
  sign_read = λ s old. refl;
  pub_read = λ p old. refl;
  id_read = λ i old. refl;
}

abbrev pub group_at : ℕ → BlsGroup ℕ ℕ ℕ
group_at self = record {
  self = self;
  self_id = self;
  gid = 0;
  hash = 0;
  members = 1 ∷ 2 ∷ 3 ∷ [];
  k = 2;
  n = 3;
  sec = 0;
  pub_key = 5;
  is_create = false;
}

-- The messages of the peers 2 and 3, the one of 2 twice.
abbrev msg_of : ℕ → BlsMsg
msg_of a = (create_bls_group curve (group_at a)).msg

abbrev msgs : List BlsMsg
msgs = msg_of 2 ∷ msg_of 2 ∷ msg_of 3 ∷ []

add_msgs-told_example : (add_msgs curve (group_at 1) msgs []).0 ≡ 1
unfolding all_share has_share create_bls_group share_members master_shares add_msgs add_msg
    take_shares insert lookup erase
add_msgs-told_example = add_msgs-told curve (group_at 1) msgs [] (λ e. omega arith) refl

abbrev msg_in : Option BlsMsg → BlsMsg
msg_in none = msg_of 2
msg_in (some m) = m

msgs-IsHonest : IsHonest curve (group_at 3) msgs
unfolding IsHonest create_bls_group
msgs-IsHonest zero m at q = absurd (omega (arith, ap (λ (o : Option BlsMsg). (msg_in o).addr) at))
msgs-IsHonest (suc zero) m at q =
    absurd (omega (arith, ap (λ (o : Option BlsMsg). (msg_in o).addr) at))
msgs-IsHonest (suc (suc zero)) m at q = (
  sym (ap (λ (o : Option BlsMsg). (msg_in o).key) at),
  sym (ap (λ (o : Option BlsMsg). (msg_in o).mastersec) at),
)
msgs-IsHonest (suc (suc (suc k))) m at q = cc

msgs-HasSent : HasSent curve (group_at 3) msgs
unfolding HasSent create_bls_group
msgs-HasSent = (2, msg_of 3, refl, refl)

create_bls_group-share_example :
    lookup 3 (add_msgs curve (group_at 1) msgs []).1 ≡ some (known_of curve (group_at 3) 1)
unfolding elem
create_bls_group-share_example =
    create_bls_group-share curve curve-IsCurve (group_at 1) (group_at 3) msgs (λ e. omega arith)
      refl (λ e. omega arith) msgs-IsHonest msgs-HasSent

-- A database, and a codec that writes each part after its length.
abbrev Files : Type 0
Files = Dict Bytes Bytes

part : Bytes → Bytes → Bytes
part xs rest = length xs ∷ (xs ++ rest)

next_part : Bytes → Bytes × Bytes
next_part [] = ([], [])
next_part (n ∷ xs) = (take n xs, drop n xs)

next_part-part : (xs rest : Bytes) → next_part (part xs rest) ≡ (xs, rest)
unfolding next_part part
next_part-part xs rest = ground (arith, take-length xs rest, drop-length xs rest)

encode_info : BlsGroupInfo → Bytes
unfolding part
encode_info info =
    info.gid
    ∷ info.hash
    ∷ info.gsize
    ∷ info.gthreshold
    ∷ part info.members (part info.id (part info.key info.sec))

decode_info : Bytes → Option BlsGroupInfo
unfolding next_part
decode_info (gid ∷ hash ∷ n ∷ k ∷ rest) =
    let (members, r1) = next_part rest in
    let (id, r2) = next_part r1 in
    let (key, sec) = next_part r2 in
    some (record {
      gid = gid;
      hash = hash;
      members = members;
      id = id;
      key = key;
      sec = sec;
      gsize = n;
      gthreshold = k;
    })
decode_info _ = none

decode-encode_info : (info : BlsGroupInfo) → decode_info (encode_info info) ≡ some info
unfolding decode_info encode_info
decode-encode_info info = ground (
  arith,
  next_part-part info.members (part info.id (part info.key info.sec)),
  next_part-part info.id (part info.key info.sec),
  next_part-part info.key info.sec,
)

abbrev disk : Disk Files
disk = record {
  get = λ db k. lookup k db;
  put = λ db k v. (insert k v db, false);
  encode_info = λ info. some (encode_info info);
  decode_info = decode_info;
}

some_inj : {x y : Bytes} → some x ≡ some y → x ≡ y
some_inj e = cc

disk-IsDisk : IsDisk disk
unfolding lookup
disk-IsDisk = record {
  get-put = λ db j k v. lookup-insert j k v db;
  put_ok = λ db k v. refl;
  decode-encode = λ info enc e. ap decode_info (some_inj (sym e)) ∙ decode-encode_info info;
}

-- The group 0 is new, and the group 4 has the hash 50.
abbrev registry : Registry ℕ ℕ ℕ Files
registry = record {
  groups = (0, record (group_at 1) { members = []; n = 0; k = 0 }) ∷ [];
  bls_groups = [];
  bls_hash_groups = (50, 4) ∷ [];
  id_hash = [];
  psec = [];
  db = [];
}

abbrev started : Registry ℕ ℕ ℕ Files
started = (on_request disk 0 1 60 (1 ∷ 2 ∷ 3 ∷ []) registry).1

on_request-started_example :
    (g : BlsGroup ℕ ℕ ℕ) × (lookup 0 (on_request disk 0 1 60 (1 ∷ 2 ∷ 3 ∷ []) registry).1.groups
      ≡ some g)
    × (g.is_create ≡ false)
    × (elem g.self g.members ≡ true)
    × (g.n ≡ length g.members)
    × (g.n < 2 * g.k)
    × (g.k ≤ g.n)
    × (lookup 60 (on_request disk 0 1 60 (1 ∷ 2 ∷ 3 ∷ []) registry).1.bls_hash_groups ≡ some 0)
    × (lookup 1 (on_request disk 0 1 60 (1 ∷ 2 ∷ 3 ∷ []) registry).1.id_hash ≡ some 60)
unfolding on_request lookup elem
on_request-started_example = on_request-started disk 0 1 60 (1 ∷ 2 ∷ 3 ∷ []) registry refl

on_request-piled_example :
    (g' : BlsGroup ℕ ℕ ℕ) × (lookup 0
        (on_request disk 0 1 60
          (3 ∷ 1 ∷ [])
          (on_request disk 0 2 50 (1 ∷ 2 ∷ []) registry).1).1.groups
      ≡ some g')
    × (g'.members ≡ ([] ++ (1 ∷ 2 ∷ [])) ++ (3 ∷ 1 ∷ []))
    × (g'.n ≡ 4)
unfolding lookup elem
on_request-piled_example =
    on_request-piled disk 0 2 1 50 60 4 (1 ∷ 2 ∷ []) (3 ∷ 1 ∷ []) registry
      (record (group_at 1) { members = []; n = 0; k = 0 }) refl refl refl refl refl refl

abbrev saved : Files
saved = (save_bls_info disk (info_of curve (group_at 1)) []).0

load_bls_info-info_of_example :
    ((load_bls_info curve disk 0 (record registry { db = saved })).0 ≡ false)
    × (g' : BlsGroup ℕ ℕ ℕ) × (get_group curve 0
          (load_bls_info curve disk 0 (record registry { db = saved })).1
        ≡ some g')
    × (g'.sec ≡ 0)
    × (g'.pub_key ≡ 5)
    × (g'.n ≡ 3)
    × (g'.k ≡ 2)
    × (g'.is_create ≡ true)
    × (g'.members ≡ copy_members [] (1 ∷ 2 ∷ 3 ∷ []))
unfolding lookup elem save_bls_info
load_bls_info-info_of_example =
    load_bls_info-info_of curve disk disk-IsDisk (group_at 1)
      (record (group_at 1) { members = []; n = 0; k = 0 }) [] 0 (record registry { db = saved })
      (λ s old. refl) (λ k old. refl) refl (omega arith) (omega arith) (λ v a b. refl) refl refl
      refl

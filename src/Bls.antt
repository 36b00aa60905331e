-- ===== src/Bls.antt =====
-- The groups of the threshold signatures: libraries/chain/blsgroup/blsgroup.go. The curve and the
-- database are parameters. A group is named by a number, the pointer to it.
pub mod Peers
pub mod Create
pub mod Requests
pub mod Signs
pub mod Saved
use gocoin.Common.{
  Bool, Bytes, Dict, List, Option, [], false, if◌then◌else◌, insert, length, lookup, none, some, ℕ,
  ◌+◌, ◌==◌, ◌∷◌, nat_eq,
}

-- What the package takes from `bls`, for the types of the ids, of the secret and the public keys
-- and of the signatures. A method that sets its receiver takes the old value too, since the code
-- ignores the error after which the old value stays.
pub record Curve (I K P S : Type 0) : Type 0 where
  pub id_of : ℕ → I
  pub no_id : I
  pub no_sec : K
  pub no_pub : P
  pub no_sign : S
  pub id_hex : I → Bytes
  pub set_id_hex : Bytes → I → I
  pub sec_hex : K → Bytes
  pub set_sec_hex : Bytes → K → K
  pub pub_hex : P → Bytes
  pub set_pub_hex : Bytes → P → P
  pub sign_hex : S → Bytes
  pub set_sign_hex : Bytes → S → S
  pub public_key : K → P
  pub master_secret_key : K → ℕ → List K
  pub share : List K → I → K → K
  pub recover_sec : List K → List I → K → K
  pub recover_pub : List P → List I → P → P
  pub recover_sign : List S → List I → S → S
  pub sign_text : K → Bytes → S
  pub verify_text : S → P → Bytes → Bool
  -- `Hex()` and the bytes of an address.
  pub address_hex : ℕ → Bytes
  pub address_text : ℕ → Bytes

-- `BlsGroup`, without its channels and its database.
pub record BlsGroup (I K P : Type 0) : Type 0 where
  pub self : ℕ
  pub self_id : I
  pub gid : ℕ
  pub hash : ℕ
  pub members : List ℕ
  pub k : ℕ
  pub n : ℕ
  pub sec : K
  pub pub_key : P
  pub is_create : Bool

-- `peerInfo`
pub record PeerInfo (K P : Type 0) : Type 0 where
  pub peer : ℕ
  pub peer_pub : P
  pub peer_sec : K

-- `msec`
pub record Msec : Type 0 where
  pub addr : ℕ
  pub msk : Bytes

-- `BlsMsg`
pub record BlsMsg : Type 0 where
  pub gid : ℕ
  pub addr : ℕ
  pub key : Bytes
  pub times : ℕ
  pub mastersec : List Msec

-- The variables of the package, with the groups that they point to and the database.
pub record Registry (I K P D : Type 0) : Type 0 where
  pub groups : Dict ℕ (BlsGroup I K P)
  pub bls_groups : Dict ℕ ℕ
  pub bls_hash_groups : Dict ℕ ℕ
  pub id_hash : Dict ℕ ℕ
  pub psec : Dict ℕ (PeerInfo K P)
  pub db : D

module _ {I K P S : Type 0} (c : Curve I K P S) where
  -- `NewBlsgroup`, without its entry in `blsGroups`.
  unfoldable pub new_blsgroup : ℕ → List ℕ → ℕ → ℕ → BlsGroup I K P
  new_blsgroup self members k gid = record {
    self = self;
    self_id = c.set_id_hex (c.address_text self) c.no_id;
    gid = gid;
    hash = 0;
    members = members;
    k = k;
    n = length members;
    sec = c.no_sec;
    pub_key = c.set_pub_hex (97 ∷ 97 ∷ 97 ∷ 97 ∷ []) c.no_pub;
    is_create = false;
  }

  -- `Set`
  unfoldable pub set_members : ℕ → List ℕ → ℕ → BlsGroup I K P → BlsGroup I K P
  set_members self members threshold g = record g {
    self = self;
    members = members;
    n = length members;
    self_id = c.id_of self;
    k = threshold;
  }

  -- The loop of `AddMsg` over the shares of a message.
  unfoldable pub take_shares :
      ℕ → PeerInfo K P → List Msec → Dict ℕ (PeerInfo K P) → Dict ℕ (PeerInfo K P)
  take_shares self p [] psec = psec
  take_shares self p (v ∷ vs) psec =
      let q : PeerInfo K P =
        if v.addr == self then record p { peer_sec = c.set_sec_hex v.msk p.peer_sec } else p in
      take_shares self q vs (if v.addr == self then insert p.peer q psec else psec)

  -- `AddMsg` of a group: the messages of the peers, and whether the group is told that it has all.
  unfoldable pub add_msg :
      BlsGroup I K P → BlsMsg → Dict ℕ (PeerInfo K P) → Bool × Dict ℕ (PeerInfo K P)
  unfolding take_shares
  add_msg g msg psec = if g.n == 0 then (false, psec) else elim (lookup msg.addr psec) [
    | some p ↦ (false, psec)
    | none ↦
        let p : PeerInfo K P = record {
          peer = msg.addr;
          peer_pub = c.set_pub_hex msg.key c.no_pub;
          peer_sec = c.no_sec;
        } in
        let psec' = take_shares g.self p msg.mastersec psec in (length psec' + 1 == g.n, psec')
  ]

module _ {I K P S D : Type 0} (c : Curve I K P S) where
  -- `GetGroup`: a nil pointer where there is no group.
  unfoldable pub get_group : ℕ → Registry I K P D → Option (BlsGroup I K P)
  get_group gid r = elim (lookup gid r.bls_groups) [ none ↦ none | some p ↦ lookup p r.groups ]

  -- `AddMsg` of the package: which group is told, if any.
  unfoldable pub add_group_msg : BlsMsg → Registry I K P D → Option ℕ × Registry I K P D
  unfolding add_msg
  add_group_msg msg r = elim (lookup msg.gid r.bls_groups) [
    | none ↦ (none, r)
    | some p ↦ elim (lookup p r.groups) [
      | none ↦ (none, r)
      | some g ↦
          let (told, psec) = add_msg c g msg r.psec in
          (if told then some p else none, record r { psec = psec })
    ]
  ]

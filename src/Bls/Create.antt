-- ===== src/Bls/Create.antt =====
-- How a group makes its keys: `CreateBlsGroup` and `saveBlsInfo` of
-- libraries/chain/blsgroup/blsgroup.go. The public keys of the members, which the code computes and
-- drops, are left out, and a map is read in the order of its list.
pub mod Shares
use gocoin.Common.{
  Bool, Bytes, Dict, List, Option, [], erase, if◌then◌else◌, insert, lookup, none, some, true, ℕ,
  ◌+◌, ◌∷◌, nat_eq,
}
use gocoin.Bls.{Curve, BlsGroup, Registry, Msec, BlsMsg, PeerInfo}
use gocoin.Chain.Storage.{hash_bytes}
use gocoin.Group.Rand.{itoa}

-- `BlsGroupInfo`
pub record BlsGroupInfo : Type 0 where
  pub gid : ℕ
  pub hash : ℕ
  pub members : List ℕ
  pub id : Bytes
  pub key : Bytes
  pub sec : Bytes
  pub gsize : ℕ
  pub gthreshold : ℕ

-- `lvldb.LDBDatabase`, for the type `D` of its states, and RLP. `get` returns `none` for its error,
-- and so do an encoder and a decoder that fail; `put` says whether its error is non-nil.
pub record Disk (D : Type 0) : Type 0 where
  pub get : D → Bytes → Option Bytes
  pub put : D → Bytes → Bytes → D × Bool
  pub encode_info : BlsGroupInfo → Option Bytes
  pub decode_info : Bytes → Option BlsGroupInfo

module _ {I K P S : Type 0} (c : Curve I K P S) where
  -- The loop that fills `secMap`.
  unfoldable pub share_members : List K → List ℕ → K → Dict ℕ K → Dict ℕ K
  share_members msk [] gsec sec_map = sec_map
  share_members msk (v ∷ vs) gsec sec_map =
      let gsec' = c.share msk (c.id_of v) gsec in
      share_members msk vs gsec' (insert v gsec' sec_map)

  -- `secMap[v]`, the zero key where there is none.
  abbrev pub sec_at : ℕ → Dict ℕ K → K
  sec_at v sec_map = elim (lookup v sec_map) [ none ↦ c.no_sec | some sec ↦ sec ]

  -- The loop that fills `mastersec`.
  unfoldable pub master_shares : Dict ℕ K → List ℕ → List Msec
  master_shares sec_map [] = []
  master_shares sec_map (v ∷ vs) =
      record { addr = v; msk = c.sec_hex (sec_at v sec_map) } ∷ master_shares sec_map vs

  -- The secret key of a node.
  abbrev pub node_sec : BlsGroup I K P → K
  node_sec g = c.set_sec_hex (c.address_hex g.self) c.no_sec

  -- What `CreateBlsGroup` keeps of its variables for the goroutine: the message that it sends, the
  -- share of the node itself, and its public key.
  pub record Creation : Type 0 where
    pub msg : BlsMsg
    pub gsec : K
    pub node_pub : P

  -- `CreateBlsGroup` up to the first message.
  unfoldable pub create_bls_group : BlsGroup I K P → Creation
  unfolding share_members master_shares
  create_bls_group g =
      let sec = node_sec g in
      let sec_map = share_members (c.master_secret_key sec g.k) g.members c.no_sec [] in
      record {
        msg = record {
          gid = g.gid;
          addr = g.self;
          key = c.pub_hex (c.public_key sec);
          times = 0;
          mastersec = master_shares (erase g.self sec_map) g.members;
        };
        gsec = sec_at g.self sec_map;
        node_pub = c.public_key sec;
      }

  -- A tick: the message that is sent again.
  unfoldable pub send_again : Creation → Creation
  send_again r = record r { msg = record (r.msg) { times = r.msg.times + 1 } }

  -- The vectors of the ids and the keys of the peers.
  unfoldable pub peer_ids : Dict ℕ (PeerInfo K P) → List I
  peer_ids [] = []
  peer_ids ((a, p) ∷ psec) = c.id_of p.peer ∷ peer_ids psec

  unfoldable pub peer_secs : Dict ℕ (PeerInfo K P) → List K
  peer_secs [] = []
  peer_secs ((a, p) ∷ psec) = p.peer_sec ∷ peer_secs psec

  unfoldable pub peer_pubs : Dict ℕ (PeerInfo K P) → List P
  peer_pubs [] = []
  peer_pubs ((a, p) ∷ psec) = p.peer_pub ∷ peer_pubs psec

  -- What the group is once it has the messages of all peers.
  unfoldable pub recovered : Creation → Dict ℕ (PeerInfo K P) → BlsGroup I K P → BlsGroup I K P
  unfolding peer_ids peer_secs peer_pubs
  recovered r psec g =
      let ids = c.id_of g.self ∷ peer_ids psec in
      record g {
        sec = c.recover_sec (r.gsec ∷ peer_secs psec) ids g.sec;
        pub_key = c.recover_pub (r.node_pub ∷ peer_pubs psec) ids g.pub_key;
        is_create = true;
      }

  unfoldable pub info_of : BlsGroup I K P → BlsGroupInfo
  info_of g = record {
    gid = g.gid;
    hash = g.hash;
    members = g.members;
    id = c.id_hex (c.id_of g.self);
    key = c.pub_hex g.pub_key;
    sec = c.sec_hex g.sec;
    gsize = g.n;
    gthreshold = g.k;
  }

module _ {D : Type 0} (disk : Disk D) where
  -- `saveIdHash`
  unfoldable pub save_id_hash : ℕ → ℕ → D → D × Bool
  save_id_hash gid hash db = disk.put db (itoa gid) (hash_bytes hash)

  -- `saveBlsInfo`: the database, and whether there is an error.
  unfoldable pub save_bls_info : BlsGroupInfo → D → D × Bool
  save_bls_info info db = elim (disk.encode_info info) [
    | none ↦ (db, true)
    | some enc ↦
        let (db1, err) = disk.put db (hash_bytes info.hash) enc in
        let second = disk.put db1 (itoa info.gid) (hash_bytes info.hash) in
        if err then (db1, true) else second
  ]

module _ {I K P S D : Type 0} (c : Curve I K P S) (disk : Disk D) where
  -- The goroutine of `CreateBlsGroup` when the group `p` is told that it has all messages.
  unfoldable pub on_all_msgs : ℕ → Creation c → Registry I K P D → Registry I K P D
  unfolding recovered info_of save_bls_info
  on_all_msgs p r reg = elim (lookup p reg.groups) [
    | none ↦ reg
    | some g ↦
        let g' = recovered c r reg.psec g in
        record reg {
          groups = insert p g' reg.groups;
          bls_groups = insert g'.gid p reg.bls_groups;
          db = (save_bls_info disk (info_of c g') reg.db).0;
        }
  ]

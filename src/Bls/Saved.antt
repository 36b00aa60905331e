-- ===== src/Bls/Saved.antt =====
-- A group that was saved is loaded: `LoadBlsInfo` of libraries/chain/blsgroup/blsgroup.go.
pub mod Restored
use gocoin.Common.{
  Bool, List, [], false, if◌then◌else◌, insert, lookup, none, some, true, ℕ, ◌∷◌, nat_eq,
}
use gocoin.Bls.{Curve, BlsGroup, Registry}
use gocoin.Bls.Create.{Disk, BlsGroupInfo}
use gocoin.Group.Rand.{itoa}
use gocoin.Chain.Storage.{hash_bytes, bytes_to_hash}
use gocoin.State.Db.{elem}

-- `copy(dst, src)`: as many as both have.
unfoldable pub copy_members : List ℕ → List ℕ → List ℕ
copy_members [] src = []
copy_members (d ∷ dst) [] = d ∷ dst
copy_members (d ∷ dst) (s ∷ src) = s ∷ copy_members dst src

module _ {I K P D : Type 0} (disk : Disk D) where
  -- The loop of `LoadBlsInfo` over the ids, for the group `p`: the last hash, and the registry.
  unfoldable pub load_ids : ℕ → List ℕ → ℕ → Registry I K P D → ℕ × Registry I K P D
  unfolding itoa
  load_ids p [] hash reg = (hash, reg)
  load_ids p (v ∷ vs) hash reg = elim (disk.get reg.db (itoa v)) [
    | none ↦ load_ids p vs hash reg
    | some h ↦ load_ids p vs (bytes_to_hash h) (record reg {
      id_hash = insert v (bytes_to_hash h) reg.id_hash;
      bls_hash_groups = insert (bytes_to_hash h) p reg.bls_hash_groups;
      bls_groups = insert v p reg.bls_groups;
    })
  ]

module _ {I K P S : Type 0} (c : Curve I K P S) where
  -- The group with what was saved.
  unfoldable pub with_info : BlsGroupInfo → BlsGroup I K P → BlsGroup I K P
  unfolding copy_members
  with_info info g = record g {
    members = copy_members g.members info.members;
    gid = info.gid;
    self_id = c.set_id_hex info.id g.self_id;
    n = info.gsize;
    k = info.gthreshold;
    pub_key = c.set_pub_hex info.key g.pub_key;
    sec = c.set_sec_hex info.sec g.sec;
    is_create = true;
  }

module _ {I K P S D : Type 0} (c : Curve I K P S) (disk : Disk D) where
  -- What follows the loop: the registry, and whether there is an error.
  abbrev load_info : ℕ → ℕ → BlsGroup I K P → Registry I K P D → Bool × Registry I K P D
  unfolding with_info
  load_info p hash g reg = elim (disk.get reg.db (hash_bytes hash)) [
    | none ↦ (true, reg)
    | some enc ↦ elim (disk.decode_info enc) [
      | none ↦ (true, reg)
      | some info ↦
          if elem g.self info.members
          then (
            false,
            record reg {
              groups = insert p (with_info c info g) reg.groups;
              bls_groups = insert info.gid p reg.bls_groups;
            },
          )
          else (true, reg)
    ]
  ]

  -- `LoadBlsInfo` of the group `p`.
  unfoldable pub load_bls_info : ℕ → Registry I K P D → Bool × Registry I K P D
  unfolding load_ids with_info
  load_bls_info p reg =
      let (hash, reg1) = load_ids disk p (0 ∷ 1 ∷ 2 ∷ []) 0 reg in
      elim (lookup p reg1.groups) [ none ↦ (true, reg1) | some g ↦ load_info p hash g reg1 ]

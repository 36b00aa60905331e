-- ===== src/Bls/Create/Shares.antt =====
-- The shares that a node sends are those that its peers take (libraries/chain/blsgroup/blsgroup.go).
use gocoin.Common.{
  Bool-cases, Dict, List, Option, [], ap, arith, erase, false, get_elem?, if◌then◌else◌, inl, inr,
  insert, lookup, lookup-erase, lookup-insert, none, refl, some, suc, true, zero, ℕ, ◌==◌, ◌∙◌, ◌∷◌,
  ◌≡◌, ◌≢◌, nat_eq,
}
use gocoin.Bls.{Curve, BlsGroup, PeerInfo, BlsMsg}
use gocoin.Bls.Peers.{own_share, add_msgs, has_share, first_info, add_msgs-lookup}
use gocoin.Bls.Create.{create_bls_group, share_members, master_shares, node_sec, sec_at}
use gocoin.State.Db.{elem}

module _ {I K P S : Type 0} (c : Curve I K P S) where
  -- What the library promises of secret keys: a key is read back from its text, and a share does
  -- not depend on what its variable held.
  pub record IsCurve : Type 0 where
    pub sec_read : (s old : K) → c.set_sec_hex (c.sec_hex s) old ≡ s
    pub share_any : (msk : List K) (i : I) (old : K) → c.share msk i old ≡ c.share msk i c.no_sec

  -- What a member is to know of a peer that made its keys.
  unfoldable pub known_of : BlsGroup I K P → ℕ → PeerInfo K P
  known_of peer self = record {
    peer = peer.self;
    peer_pub = c.set_pub_hex (c.pub_hex (c.public_key (node_sec c peer))) c.no_pub;
    peer_sec = c.share (c.master_secret_key (node_sec c peer) peer.k) (c.id_of self) c.no_sec;
  }

  -- The messages that name a peer as their sender have the keys that it made, and there is one.
  unfoldable pub IsHonest : BlsGroup I K P → List BlsMsg → Type 0
  IsHonest peer msgs =
      (k : ℕ) (m : BlsMsg)
      → get_elem? msgs k ≡ some m
      → m.addr ≡ peer.self
      → (m.key ≡ (create_bls_group c peer).msg.key)
        × (m.mastersec ≡ (create_bls_group c peer).msg.mastersec)

  unfoldable pub HasSent : BlsGroup I K P → List BlsMsg → Type 0
  HasSent peer msgs = (k : ℕ) × (m : BlsMsg) × (get_elem? msgs k ≡ some m) × (m.addr ≡ peer.self)

  module _ (law : IsCurve) where
    share_members-lookup :
        (msk : List K) (vs : List ℕ) (gsec : K) (m : Dict ℕ K) (a : ℕ)
        → lookup a (share_members c msk vs gsec m)
          ≡ (if elem a vs then some (c.share msk (c.id_of a) c.no_sec) else lookup a m)
    unfolding share_members elem
    share_members-lookup msk [] gsec m a = refl
    share_members-lookup msk (v ∷ vs) gsec m a =
        let g' = c.share msk (c.id_of v) gsec in
        ground (
          arith,
          share_members-lookup msk vs g' (insert v g' m) a,
          lookup-insert a v g' m,
          law.share_any msk (c.id_of v) gsec,
        )

    master_shares-own_share :
        (m : Dict ℕ K) (vs : List ℕ) (a : ℕ) (sec : K)
        → own_share c a sec (master_shares c m vs) ≡ (if elem a vs then sec_at c a m else sec)
    unfolding master_shares own_share elem
    master_shares-own_share m [] a sec = refl
    master_shares-own_share m (v ∷ vs) a sec =
        let sec' = if v == a then c.set_sec_hex (c.sec_hex (sec_at c v m)) sec else sec in
        ground (arith, master_shares-own_share m vs a sec', law.sec_read (sec_at c v m) sec)

    has_share-master_shares :
        (m : Dict ℕ K) (vs : List ℕ) (a : ℕ) → has_share a (master_shares c m vs) ≡ elem a vs
    unfolding master_shares has_share elem
    has_share-master_shares m [] a = refl
    has_share-master_shares m (v ∷ vs) a = ground (arith, has_share-master_shares m vs a)

    created-own_share :
        (self : ℕ) (peer : BlsGroup I K P)
        → elem self peer.members ≡ true
        → self ≢ peer.self
        → (has_share self (create_bls_group c peer).msg.mastersec ≡ true)
          × (own_share c self c.no_sec (create_bls_group c peer).msg.mastersec
              ≡ c.share (c.master_secret_key (node_sec c peer) peer.k) (c.id_of self) c.no_sec)
    unfolding create_bls_group lookup
    created-own_share self peer member other =
        let msk = c.master_secret_key (node_sec c peer) peer.k in
        let m = share_members c msk peer.members c.no_sec [] in
        (
          has_share-master_shares (erase peer.self m) peer.members self ∙ member,
          ground (
            arith,
            master_shares-own_share (erase peer.self m) peer.members self c.no_sec,
            lookup-erase self peer.self m,
            share_members-lookup msk peer.members c.no_sec [] self,
          ),
        )

    sent_later :
        (peer : BlsGroup I K P) (msg : BlsMsg) (msgs : List BlsMsg) (k : ℕ) (m : BlsMsg)
        → (msg.addr == peer.self) ≡ false
        → get_elem? (msg ∷ msgs) k ≡ some m
        → m.addr ≡ peer.self
        → HasSent peer msgs
    unfolding HasSent
    sent_later peer msg msgs zero m e at q = absurd (
        ground
          (arith, ap {B = ℕ} (λ (o : Option BlsMsg). elim o [ none ↦ 0 | some x ↦ x.addr ]) at))
    sent_later peer msg msgs (suc k) m e at q = (k, m, at, q)

    -- The message of a node is the first that a list has from it, and has its share for `self`.
    first_info-honest :
        (self : ℕ) (peer : BlsGroup I K P) (msgs : List BlsMsg)
        → elem self peer.members ≡ true
        → self ≢ peer.self
        → IsHonest peer msgs
        → HasSent peer msgs
        → first_info c self peer.self msgs ≡ some (known_of peer self)
    unfolding first_info IsHonest HasSent known_of create_bls_group
    first_info-honest self peer [] member other honest (k, m, at, e) = cc
    first_info-honest self peer (msg ∷ msgs) member other honest (k, m, at, q) =
        elim (Bool-cases (msg.addr == peer.self)) [
          | inr e ↦
              let rest =
                first_info-honest self peer msgs member other (λ j n a b. honest (suc j) n a b)
                  (sent_later peer msg msgs k m e at q) in
              ground (arith, rest)
          | inl e ↦
              let from : msg.addr ≡ peer.self = ground arith in
              let (key, shares) = honest 0 msg refl from in
              let (has, own) = created-own_share self peer member other in
              ground (
                arith,
                from,
                ap (has_share self) shares ∙ has,
                ap (own_share c self c.no_sec) shares ∙ own,
                key,
              )
        ]

    -- If a list of messages has one of a peer, and all those that name this peer as their sender
    -- are what its `CreateBlsGroup` made, then after `AddMsg` of all of them, from nothing,
    -- another member of the peer's group that is not empty knows the peer's public key and the
    -- share of the peer's key for itself, whatever the other messages are, if keys are read back
    -- from their texts and a share does not depend on what its variable held.
    pub create_bls_group-share :
        (g peer : BlsGroup I K P) (msgs : List BlsMsg)
        → g.n ≢ 0
        → elem g.self peer.members ≡ true
        → g.self ≢ peer.self
        → IsHonest peer msgs
        → HasSent peer msgs
        → lookup peer.self (add_msgs c g msgs []).1 ≡ some (known_of peer g.self)
    unfolding lookup first_info
    create_bls_group-share g peer msgs h member other honest sent =
        add_msgs-lookup c g msgs [] peer.self h
        ∙ first_info-honest g.self peer msgs member other honest sent

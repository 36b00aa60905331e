-- ===== src/Bls/Peers.antt =====
-- The messages of the peers of a group: `AddMsg` of libraries/chain/blsgroup/blsgroup.go.
use gocoin.Common.{
  ==_self, Bool, Bool-cases, Dict, List, Option, Option-cases, [], ap, arith, false, if◌then◌else◌,
  inl, inr, insert, leb, length, lookup, lookup-insert, ltb, none, refl, some, true, ℕ, ◌&&◌, ◌+◌,
  ◌==◌, ◌||◌, ◌∙◌, ◌∷◌, ◌≡◌, ◌≢◌, ◌≤◌, ◌⊎◌, nat_eq,
}
use gocoin.Bls.{Curve, BlsGroup, add_msg, take_shares, Msec, PeerInfo, BlsMsg}

module _ {V : Type 0} where
  -- The size of a map after a write.
  abbrev size_after : Option V → ℕ → ℕ
  size_after none n = n + 1
  size_after (some w) n = n

  length-insert :
      (k : ℕ) (v : V) (d : Dict ℕ V) → length (insert k v d) ≡ size_after (lookup k d) (length d)
  unfolding insert lookup
  length-insert k v [] = refl
  length-insert k v ((j, w) ∷ d) =
      let ih = length-insert k v d in
      elim (Bool-cases (k == j)) [
        | inl e ↦ ground arith
        | inr e ↦ elim (Option-cases (lookup k d)) [
          | inl q ↦ ground arith
          | inr (u, q) ↦ ground arith
        ]
      ]

-- Whether a message has a share for a node.
unfoldable pub has_share : ℕ → List Msec → Bool
has_share self [] = false
has_share self (v ∷ vs) = v.addr == self || has_share self vs

module _ {I K P S : Type 0} (c : Curve I K P S) where
  -- The key of the shares for a node; a later one replaces an earlier one.
  unfoldable pub own_share : ℕ → K → List Msec → K
  own_share self sec [] = sec
  own_share self sec (v ∷ vs) =
      own_share self (if v.addr == self then c.set_sec_hex v.msk sec else sec) vs

  -- What is known of a peer after a message of it that has a share.
  abbrev pub peer_info : ℕ → BlsMsg → PeerInfo K P
  peer_info self msg = record {
    peer = msg.addr;
    peer_pub = c.set_pub_hex msg.key c.no_pub;
    peer_sec = own_share self c.no_sec msg.mastersec;
  }

  -- What the first message of a peer that has a share says of it.
  unfoldable pub first_info : ℕ → ℕ → List BlsMsg → Option (PeerInfo K P)
  unfolding has_share own_share
  first_info self a [] = none
  first_info self a (msg ∷ msgs) =
      let later = first_info self a msgs in
      if a == msg.addr && has_share self msg.mastersec then some (peer_info self msg) else later

  -- The messages, one after the other, with how often the group is told that it has all.
  unfoldable pub add_msgs :
      BlsGroup I K P → List BlsMsg → Dict ℕ (PeerInfo K P) → ℕ × Dict ℕ (PeerInfo K P)
  unfolding add_msg
  add_msgs g [] psec = (0, psec)
  add_msgs g (msg ∷ msgs) psec =
      let (told, psec1) = add_msg c g msg psec in
      let (times, psec2) = add_msgs g msgs psec1 in (if told then times + 1 else times, psec2)

  own_share_none :
      (self : ℕ) (sec : K) (vs : List Msec)
      → has_share self vs ≡ false
      → own_share self sec vs ≡ sec
  unfolding has_share own_share
  own_share_none self sec [] h = refl
  own_share_none self sec (v ∷ vs) h = ground (arith, own_share_none self sec vs)

  take_shares-lookup :
      (self a : ℕ) (p : PeerInfo K P) (vs : List Msec) (psec : Dict ℕ (PeerInfo K P))
      → lookup a (take_shares c self p vs psec) ≡ (
          if has_share self vs && a == p.peer
          then some (record p { peer_sec = own_share self p.peer_sec vs })
          else lookup a psec)
  unfolding take_shares has_share own_share
  take_shares-lookup self a p [] psec = refl
  take_shares-lookup self a p (v ∷ vs) psec = elim (Bool-cases (v.addr == self)) [
    | inr e ↦ ground (arith, take_shares-lookup self a p vs psec)
    | inl e ↦
        let q : PeerInfo K P = record p { peer_sec = c.set_sec_hex v.msk p.peer_sec } in
        ground (
          arith,
          take_shares-lookup self a q vs (insert p.peer q psec),
          lookup-insert a p.peer q psec,
          own_share_none self q.peer_sec vs,
        )
  ]

  take_shares-length :
      (self : ℕ) (p : PeerInfo K P) (vs : List Msec) (psec : Dict ℕ (PeerInfo K P))
      → length (take_shares c self p vs psec)
        ≡ (if has_share self vs then size_after (lookup p.peer psec) (length psec) else length psec)
  unfolding take_shares has_share
  take_shares-length self p [] psec = refl
  take_shares-length self p (v ∷ vs) psec = elim (Bool-cases (v.addr == self)) [
    | inr e ↦ ground (arith, take_shares-length self p vs psec)
    | inl e ↦
        let q : PeerInfo K P = record p { peer_sec = c.set_sec_hex v.msk p.peer_sec } in
        ground (
          arith,
          take_shares-length self q vs (insert p.peer q psec),
          lookup-insert p.peer p.peer q psec,
          ==_self p.peer,
          length-insert p.peer q psec,
        )
  ]

  add_msg-lookup :
      (g : BlsGroup I K P) (msg : BlsMsg) (psec : Dict ℕ (PeerInfo K P)) (a : ℕ)
      → g.n ≢ 0
      → lookup a (add_msg c g msg psec).1 ≡ elim (lookup a psec) [
        | some p ↦ some p
        | none ↦
            if a == msg.addr && has_share g.self msg.mastersec
            then some (peer_info g.self msg)
            else none
      ]
  unfolding add_msg
  add_msg-lookup g msg psec a h = elim (Option-cases (lookup msg.addr psec)) [
    | inr (p, e) ↦ elim (Bool-cases (a == msg.addr)) [
      | inr other ↦ elim (Option-cases (lookup a psec)) [
        | inl q ↦ ground arith
        | inr (p', q) ↦ ground arith
      ]
      | inl same ↦
          let eq : a ≡ msg.addr = ground arith in
          let q : lookup a psec ≡ some p = ap (λ z. lookup z psec) eq ∙ e in ground arith
    ]
    | inl e ↦
        let known =
          take_shares-lookup g.self a
            (record {
              peer = msg.addr;
              peer_pub = c.set_pub_hex msg.key c.no_pub;
              peer_sec = c.no_sec;
            })
            msg.mastersec psec in
        elim (Bool-cases (a == msg.addr)) [
          | inr other ↦ elim (Option-cases (lookup a psec)) [
            | inl q ↦ ground (arith, known)
            | inr (p', q) ↦ ground (arith, known)
          ]
          | inl same ↦
              let eq : a ≡ msg.addr = ground arith in
              let q : lookup a psec ≡ none = ap (λ z. lookup z psec) eq ∙ e in ground (arith, known)
        ]
  ]

  -- In a group that is not empty, messages leave what is known of a peer, and of one that is not
  -- known they keep what the first message of it that has a share for the node says.
  pub add_msgs-lookup :
      (g : BlsGroup I K P) (msgs : List BlsMsg) (psec : Dict ℕ (PeerInfo K P)) (a : ℕ)
      → g.n ≢ 0
      → lookup a (add_msgs g msgs psec).1
        ≡ elim (lookup a psec) [ some p ↦ some p | none ↦ first_info g.self a msgs ]
  unfolding add_msgs first_info
  add_msgs-lookup g [] psec a h = elim (Option-cases (lookup a psec)) [
    | inl q ↦ ground arith
    | inr (p, q) ↦ ground arith
  ]
  add_msgs-lookup g (msg ∷ msgs) psec a h =
      let one = add_msg-lookup g msg psec a h in
      let rest = add_msgs-lookup g msgs (add_msg c g msg psec).1 a h in
      elim (Option-cases (lookup a psec)) [
        | inr (p, q) ↦ ground (arith, one, rest)
        | inl q ↦ elim (Bool-cases (a == msg.addr && has_share g.self msg.mastersec)) [
          | inl here ↦ ground (arith, one, rest)
          | inr not_here ↦ ground (arith, one, rest)
        ]
      ]

  -- Every message has a share for the node.
  unfoldable pub all_share : ℕ → List BlsMsg → Bool
  unfolding has_share
  all_share self [] = true
  all_share self (msg ∷ msgs) = has_share self msg.mastersec && all_share self msgs

  -- What one message that has a share does to the number of the peers.
  add_msg-count :
      (g : BlsGroup I K P) (msg : BlsMsg) (psec : Dict ℕ (PeerInfo K P))
      → g.n ≢ 0
      → has_share g.self msg.mastersec ≡ true
      → (add_msg c g msg psec ≡ (false, psec))
        ⊎ ((length (add_msg c g msg psec).1 ≡ length psec + 1)
            × ((add_msg c g msg psec).0 ≡ (length psec + 2 == g.n)))
  unfolding add_msg
  add_msg-count g msg psec h s = elim (Option-cases (lookup msg.addr psec)) [
    | inr (p, e) ↦ inl (ground arith)
    | inl e ↦
        let grown =
          take_shares-length g.self
            (record {
              peer = msg.addr;
              peer_pub = c.set_pub_hex msg.key c.no_pub;
              peer_sec = c.no_sec;
            })
            msg.mastersec psec in
        inr (ground (arith, grown), ground (arith, grown))
  ]

  add_msgs-grows :
      (g : BlsGroup I K P) (msgs : List BlsMsg) (psec : Dict ℕ (PeerInfo K P))
      → g.n ≢ 0
      → all_share g.self msgs ≡ true
      → length psec ≤ length (add_msgs g msgs psec).1
  unfolding add_msgs all_share
  add_msgs-grows g [] psec h s = omega arith
  add_msgs-grows g (msg ∷ msgs) psec h s =
      let rest = add_msgs-grows g msgs (add_msg c g msg psec).1 h (ground arith) in
      elim (add_msg-count g msg psec h (ground arith)) [
        | inl q ↦ ground arith
        | inr (q, t) ↦ ground arith
      ]

  -- However many messages come to a group that is not empty, and however often they are
  -- repeated, if each has a share for the node, then the group is told that it has all at most
  -- once, and exactly if the number of the peers that are known passes from less than the size
  -- of the group less one to that number or more.
  pub add_msgs-told :
      (g : BlsGroup I K P) (msgs : List BlsMsg) (psec : Dict ℕ (PeerInfo K P))
      → g.n ≢ 0
      → all_share g.self msgs ≡ true
      → (add_msgs g msgs psec).0 ≡ (
          if ltb (length psec + 1) g.n && leb g.n (length (add_msgs g msgs psec).1 + 1)
          then 1
          else 0)
  unfolding add_msgs all_share
  add_msgs-told g [] psec h s = ground arith
  add_msgs-told g (msg ∷ msgs) psec h s =
      let psec1 = (add_msg c g msg psec).1 in
      let rest = add_msgs-told g msgs psec1 h (ground arith) in
      let more = add_msgs-grows g msgs psec1 h (ground arith) in
      elim (add_msg-count g msg psec h (ground arith)) [
        | inl q ↦ ground arith
        | inr (q, t) ↦ ground arith
      ]

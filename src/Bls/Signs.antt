-- ===== src/Bls/Signs.antt =====
-- Signing and verifying: `Sign`, `Verigy`, `VerigyGsign`, `PubKey` and `Verify` of
-- libraries/chain/blsgroup/blsgroup.go.
use gocoin.Common.{Bool, Bytes, List, [], arith, map, refl, ◌∷◌, ◌≡◌}
use gocoin.Bls.{Curve, BlsGroup}

-- `BlsSign`
pub record BlsSign : Type 0 where
  pub id : Bytes
  pub sign : Bytes

module _ {I K P S : Type 0} (c : Curve I K P S) where
  -- `Sign` of a group.
  unfoldable pub sign_msg : BlsGroup I K P → Bytes → BlsSign
  sign_msg g msg = record { id = c.id_hex g.self_id; sign = c.sign_hex (c.sign_text g.sec msg) }

  -- The loop of `Verigy`: the ids and the signatures, and the last signature.
  unfoldable pub read_signs : List BlsSign → I → S → List I × List S × S
  read_signs [] id sig = ([], [], sig)
  read_signs (v ∷ vs) id sig =
      let id' = c.set_id_hex v.id id in
      let sig' = c.set_sign_hex v.sign sig in
      let (ids, signs, last) = read_signs vs id' sig' in (id' ∷ ids, sig' ∷ signs, last)

  -- `Verigy`
  unfoldable pub verigy : BlsGroup I K P → List BlsSign → Bytes → Bool × Bytes
  unfolding read_signs
  verigy g signs msg =
      let (ids, sigs, last) = read_signs signs c.no_id c.no_sign in
      let sig = c.recover_sign sigs ids last in (c.verify_text sig g.pub_key msg, c.sign_hex sig)

  -- `VerigyGsign`
  unfoldable pub verigy_gsign : BlsGroup I K P → Bytes → Bytes → Bool
  verigy_gsign g sig msg = c.verify_text (c.set_sign_hex sig c.no_sign) g.pub_key msg

  -- `PubKey`
  unfoldable pub pub_key_of : BlsGroup I K P → Bytes
  pub_key_of g = c.pub_hex g.pub_key

  -- `Verify` of the package.
  unfoldable pub verify : Bytes → Bytes → Bytes → Bool
  verify sig msg key = c.verify_text (c.set_sign_hex sig c.no_sign) (c.set_pub_hex key c.no_pub) msg

  -- What the library promises of texts: a signature and a public key are read back from theirs.
  pub record IsReadable : Type 0 where
    pub sign_read : (s old : S) → c.set_sign_hex (c.sign_hex s) old ≡ s
    pub pub_read : (p : P) (old : P) → c.set_pub_hex (c.pub_hex p) old ≡ p
    pub id_read : (i old : I) → c.set_id_hex (c.id_hex i) old ≡ i

  -- The signatures of the members for a message, in their order.
  unfoldable pub sign_all : List (BlsGroup I K P) → Bytes → List BlsSign
  unfolding sign_msg
  sign_all [] msg = []
  sign_all (g ∷ gs) msg = sign_msg g msg ∷ sign_all gs msg

  module _ (law : IsReadable) where
    read_signs-sign_all :
        (gs : List (BlsGroup I K P)) (msg : Bytes) (id : I) (sig : S)
        → ((read_signs (sign_all gs msg) id sig).0 ≡ map (λ g. g.self_id) gs)
          × ((read_signs (sign_all gs msg) id sig).1 ≡ map (λ g. c.sign_text g.sec msg) gs)
    unfolding read_signs sign_all sign_msg
    read_signs-sign_all [] msg id sig = (refl, refl)
    read_signs-sign_all (g ∷ gs) msg id sig =
        let sig' = c.set_sign_hex (c.sign_hex (c.sign_text g.sec msg)) sig in
        let id' = c.set_id_hex (c.id_hex g.self_id) id in
        let (ids, sigs) = read_signs-sign_all gs msg id' sig' in
        let a = law.id_read g.self_id id in
        let b = law.sign_read (c.sign_text g.sec msg) sig in
        (ground (arith, ids, a), ground (arith, sigs, b))

    -- x
    pub verigy-sign_all :
        (g : BlsGroup I K P) (gs : List (BlsGroup I K P)) (msg : Bytes)
        → (old : S) × (verigy g (sign_all gs msg) msg ≡ (
          c.verify_text
              (c.recover_sign (map (λ h. c.sign_text h.sec msg) gs) (map (λ h. h.self_id) gs) old)
              g.pub_key
              msg,
          c.sign_hex
              (c.recover_sign (map (λ h. c.sign_text h.sec msg) gs) (map (λ h. h.self_id) gs) old),
        ))
    unfolding verigy
    verigy-sign_all g gs msg =
        let (ids, sigs) = read_signs-sign_all gs msg c.no_id c.no_sign in
        ((read_signs (sign_all gs msg) c.no_id c.no_sign).2, ground (arith, ids, sigs))

    -- x
    pub verigy-verify :
        (g g' : BlsGroup I K P) (signs : List BlsSign) (msg : Bytes)
        → g'.pub_key ≡ g.pub_key
        → (verigy_gsign g' (verigy g signs msg).1 msg ≡ (verigy g signs msg).0)
          × (verify (verigy g signs msg).1 msg (pub_key_of g') ≡ (verigy g signs msg).0)
    unfolding verigy verigy_gsign verify pub_key_of
    verigy-verify g g' signs msg same =
        let (ids, sigs, last) = read_signs signs c.no_id c.no_sign in
        let sig = c.recover_sign sigs ids last in
        let read = law.sign_read sig c.no_sign in
        let key = law.pub_read g'.pub_key c.no_pub in
        (ground (arith, read, same), ground (arith, read, key, same))

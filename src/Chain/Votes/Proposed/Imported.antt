-- ===== src/Chain/Votes/Proposed/Imported.antt =====
-- The blocks that the loop of `Worker.update` accepts pass `BlockSigerVerifier`
-- (libraries/chain/space/worker.go and blockchain.go), with the signatures of
-- libraries/chain/blsgroup/blsgroup.go.
use gocoin.Chain.Votes.Proposed.Good.{IsGood, steps-IsGood}
use gocoin.Chain.Votes.Proposed.Reached.{IsChecked, WasChecked}
use gocoin.Chain.Votes.Proposed.Rounds.{WorkerSteps}
use gocoin.Chain.Votes.Proposed.{Clock, Member}
use gocoin.State.Backend.{Backend}
use gocoin.Chain.Votes.Proposed.Reached.{WasBuilt}
use gocoin.Common.{
  Bool, Bool-cases, Bytes, List, Option, [], ap, arith, bytes_beq, bytes_beq_iff, get_elem?, inl,
  inr, lookup, ok, refl, some, subst, sym, true, ℕ, ◌∙◌, ◌∷◌, ◌≡◌, ◌≢◌, ◌⊎◌, nat_eq,
}
use gocoin.Bls.{Curve, BlsGroup}
use gocoin.Bls.Signs.{BlsSign, verigy, verify, IsReadable, verigy-verify, pub_key_of}
use gocoin.Chain.Insert.{Verifier, block_siger_verifier}
use gocoin.Chain.Storage.{hash_bytes}
use gocoin.Chain.Votes.{Bls, set_signer, Accepted}
use gocoin.Chain.Tx.{Block, Header, Services}

module _ {I K P S : Type 0} (c : Curve I K P S) where
  -- The signatures of a group as the votes use them, and as `BlockSigerVerifier` does.
  abbrev pub bls_of : BlsGroup I K P → (Bytes → Bytes → Bool) → Bls BlsSign
  bls_of g percent_less = record {
    group_threshold = g.k;
    verigy = λ signs hash. verigy c g signs (hash_bytes hash);
    percent_less = percent_less;
  }

  abbrev pub verifier_of : (Header → ℕ) → (ℕ → Bytes → Option ℕ) → Verifier
  verifier_of hash_no_sig sign_sender = record {
    hash_no_sig = hash_no_sig;
    sign_sender = sign_sender;
    bls_verify = verify c;
  }

  signed_passes :
      (law : IsReadable c) (hash_no_sig : Header → ℕ) (sign_sender : ℕ → Bytes → Option ℕ)
      (g : BlsGroup I K P) (block : Block) (signs : List BlsSign) (sig : Bytes)
      → ((h : Header) (s : Bytes) → hash_no_sig (record h { sign = s }) ≡ hash_no_sig h)
      → block.header.pk ≡ 2 ∷ pub_key_of c g
      → sig ≢ []
      → verigy c g signs (hash_bytes (hash_no_sig block.header)) ≡ (true, sig)
      → block_siger_verifier (verifier_of hash_no_sig sign_sender) (set_signer sig block) ≡ ok true
  unfolding block_siger_verifier set_signer
  signed_passes law hash_no_sig sign_sender g block signs [] any_sign pk some_sig valid =
      absurd (some_sig refl)
  signed_passes law hash_no_sig sign_sender g block signs (s ∷ ss) any_sign pk some_sig valid =
      let (gsign, key) =
        verigy-verify c law g g signs (hash_bytes (hash_no_sig block.header)) refl in
      let bytes = hash_bytes (hash_no_sig block.header) in
      let out : (verigy c g signs bytes).1 ≡ s ∷ ss = ap (λ (z : Bool × Bytes). z.1) valid in
      let passes : verify c (s ∷ ss) bytes (pub_key_of c g) ≡ true =
        ap (λ z. verify c z bytes (pub_key_of c g)) (sym out)
        ∙ key
        ∙ ap (λ (z : Bool × Bytes). z.0) valid in
      ground (arith, passes, any_sign block.header (s ∷ ss), pk)

  set_signer-pk : (sig : Bytes) (block : Block) → (set_signer sig block).header.pk ≡ block.header.pk
  unfolding set_signer
  set_signer-pk [] block = refl
  set_signer-pk (s ∷ ss) block = refl

  set_signer-sign :
      (sig : Bytes) (block : Block) → sig ≢ [] → (set_signer sig block).header.sign ≡ sig
  unfolding set_signer
  set_signer-sign [] block some_sig = absurd (some_sig refl)
  set_signer-sign (s ∷ ss) block some_sig = refl

  module _ {T R D G : Type 0} (b : Backend T) (v : Services R) (t : G → Clock BlsSign)
      (group : G → BlsGroup I K P) where
    -- Every block that the worker sends out as accepted, from a start without blocks that are
    -- voted on, passes `BlockSigerVerifier`, unless the node built it itself, or its public key
    -- is not the type 2 and the key of the group that signed it, whose `Verigy` then returned
    -- the block's signature as valid for its hash, if the hash without the signature does not
    -- depend on the signature, no signature has an empty text, and keys and signatures are read
    -- back from their texts.
    pub steps-block_siger_verifier :
        (law : IsReadable c) (hash_no_sig : Header → ℕ) (sign_sender : ℕ → Bytes → Option ℕ)
        (percent_less : Bytes → Bytes → Bool) (w : Member D BlsSign)
        (r : Accepted × Member D BlsSign)
        → ((h : Header) (s : Bytes) → hash_no_sig (record h { sign = s }) ≡ hash_no_sig h)
        → ((s : S) → c.sign_hex s ≢ [])
        → w.voting.sig_blocks ≡ []
        → WorkerSteps b v
            (verifier_of hash_no_sig sign_sender)
            (λ g. bls_of (group g) percent_less)
            t
            w
            r
        → (k : ℕ) (p : ℕ × Block) → get_elem? r.0 k ≡ some p
        → (block_siger_verifier (verifier_of hash_no_sig sign_sender) p.1 ≡ ok true)
          ⊎ ((block : Block) × (sig : Bytes) × (p.1 ≡ set_signer sig block)
              × WasBuilt b v (verifier_of hash_no_sig sign_sender) p.0 block)
          ⊎ ((g : G) × (p.1.header.pk ≢ 2 ∷ pub_key_of c (group g))
              × (signs : List BlsSign) × (verigy c (group g) signs (hash_bytes p.0)
                  ≡ (true, p.1.header.sign)))
    unfolding IsChecked IsGood WasChecked lookup verigy set_signer
    steps-block_siger_verifier law hash_no_sig sign_sender percent_less w r any_sign some_text start
          steps k p at =
        let ver = verifier_of hash_no_sig sign_sender in
        let bls : G → Bls BlsSign = λ g. bls_of (group g) percent_less in
        elim (steps-IsGood b v ver bls t steps
          (λ hash block e. absurd (ground (arith, e, ap (lookup hash) start))) k p at) [
            | inr own ↦ inr (inl (p.1, [], refl, own))
            | inl (block, g, signs, sig, eq, known, valid) ↦ elim known [
              | inr own ↦ inr (inl (block, sig, eq, own))
              | inl (keyed, signed, checked) ↦
                  elim (Bool-cases (bytes_beq p.1.header.pk (2 ∷ pub_key_of c (group g)))) [
                    | inr other ↦ inr (
                        inr (
                          g,
                          λ same. absurd (
                              ground (
                                arith,
                                other,
                                (bytes_beq_iff p.1.header.pk (2 ∷ pub_key_of c (group g))).1 same,
                              )),
                          signs,
                          valid
                              ∙ ap (λ z. (true, z))
                                  (sym (
                                      set_signer-sign sig block (λ e.
                                        some_text _ (ap (λ (z : Bool × Bytes). z.1) valid ∙ e)))
                                    ∙ ap (λ (z : Block). z.header.sign) (sym eq)),
                        ))
                    | inl same ↦ inl (
                        subst (λ (z : Block). block_siger_verifier ver z ≡ ok true) (sym eq)
                          (signed_passes law hash_no_sig sign_sender (group g) block signs sig
                            any_sign
                            (sym (set_signer-pk sig block)
                              ∙ ap (λ (z : Block). z.header.pk) (sym eq)
                              ∙ (bytes_beq_iff p.1.header.pk (2 ∷ pub_key_of c (group g))).0 same)
                            (λ e. some_text _ (ap (λ (z : Bool × Bytes). z.1) valid ∙ e))
                            (ap (λ h. verigy c (group g) signs (hash_bytes h)) keyed ∙ valid)))
                  ]
            ]
          ]

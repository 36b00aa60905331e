-- ===== src/Bls/Saved/Restored.antt =====
-- What is read after a restart is what was saved (libraries/chain/blsgroup/blsgroup.go).
use gocoin.State.Db.{elem}
use gocoin.Common.{
  ==_self, Bool-cases, Bytes, List, Option-cases, [], ap, arith, bytes_beq, bytes_beq_iff, digits,
  drop, false, if◌then◌else◌, inl, inr, insert, length, length-digits, lookup, lookup-insert, none,
  number_from, number_from-digits, refl, some, suc, true, zero, ℕ, ◌+◌, ◌-◌, ◌<◌, ◌==◌, ◌^◌, ◌∙◌,
  ◌∷◌, ◌≡◌, ◌≢◌, ◌≤◌, nat_eq,
}
use gocoin.Bls.{Registry, Curve, get_group, BlsGroup}
use gocoin.Bls.Create.{Disk, BlsGroupInfo, save_bls_info, info_of}
use gocoin.Bls.Saved.{load_ids, load_bls_info, elem, with_info, copy_members}
use gocoin.Group.Rand.{itoa, itoa_digits}
use gocoin.Chain.Storage.{hash_bytes, bytes_to_hash}

itoa_digits_small :
    (fuel n : ℕ) (rest : Bytes) → 0 < fuel → n < 10 → itoa_digits fuel n rest ≡ (48 + n) ∷ rest
unfolding itoa_digits
itoa_digits_small zero n rest h lt = absurd (omega arith)
itoa_digits_small (suc fuel) n rest h lt = ground arith

itoa_small : (n : ℕ) → n < 10 → itoa n ≡ (48 + n) ∷ []
unfolding itoa
itoa_small n lt = itoa_digits_small (n + 1) n [] (omega arith) lt

-- The keys of two ids are the same only for one id.
key_same : (v w : ℕ) → v < 10 → w < 10 → bytes_beq (itoa v) (itoa w) ≡ (v == w)
unfolding bytes_beq
key_same v w hv hw = rw (itoa_small v hv, itoa_small w hw) (ground arith)

bytes_beq-length : (xs ys : Bytes) → length xs ≢ length ys → bytes_beq xs ys ≡ false
unfolding bytes_beq
bytes_beq-length [] [] h = absurd (h refl)
bytes_beq-length [] (y ∷ ys) h = refl
bytes_beq-length (x ∷ xs) [] h = refl
bytes_beq-length (x ∷ xs) (y ∷ ys) h = ground (arith, bytes_beq-length xs ys (λ e. h (ap suc e)))

-- The key of an id is not the key of a hash.
key_other : (v hash : ℕ) → v < 10 → bytes_beq (itoa v) (hash_bytes hash) ≡ false
key_other v hash h =
    bytes_beq-length (itoa v) (hash_bytes hash)
      (λ e. absurd (omega (arith, ap length (itoa_small v h), length-digits 32 hash)))

key_other_sym : (v hash : ℕ) → v < 10 → bytes_beq (hash_bytes hash) (itoa v) ≡ false
key_other_sym v hash h =
    bytes_beq-length (hash_bytes hash) (itoa v)
      (λ e. absurd (omega (arith, ap length (itoa_small v h), length-digits 32 hash)))

hash_read : (hash : ℕ) → hash < 256 ^ 32 → bytes_to_hash (hash_bytes hash) ≡ hash
hash_read hash h =
    ap (λ n. number_from 0 (drop (n - 32) (digits 32 hash))) (length-digits 32 hash)
    ∙ number_from-digits 32 hash h

module _ {D : Type 0} (disk : Disk D) where
  -- What the database and RLP promise.
  pub record IsDisk : Type 0 where
    pub get-put :
        (db : D) (j k v : Bytes)
        → disk.get (disk.put db k v).0 j ≡ (if bytes_beq j k then some v else disk.get db j)
    pub put_ok : (db : D) (k v : Bytes) → (disk.put db k v).1 ≡ false
    pub decode-encode :
        (info : BlsGroupInfo) (enc : Bytes)
        → disk.encode_info info ≡ some enc
        → disk.decode_info enc ≡ some info

  -- The last hash of the ids.
  unfoldable last_hash : List ℕ → D → ℕ → ℕ
  unfolding itoa
  last_hash [] db hash = hash
  last_hash (v ∷ vs) db hash =
      last_hash vs db (elim (disk.get db (itoa v)) [ none ↦ hash | some h ↦ bytes_to_hash h ])

  save-encoded :
      (info : BlsGroupInfo) (db : D)
      → (save_bls_info disk info db).1 ≡ false
      → (enc : Bytes) × (disk.encode_info info ≡ some enc)
  unfolding save_bls_info
  save-encoded info db saved = elim (Option-cases (disk.encode_info info)) [
    | inl failed ↦ absurd (ground arith)
    | inr found ↦ found
  ]

  module _ {I K P : Type 0} where
    load_ids-last_hash :
        (p : ℕ) (vs : List ℕ) (hash : ℕ) (reg : Registry I K P D)
        → ((load_ids disk p vs hash reg).0 ≡ last_hash vs reg.db hash)
          × ((load_ids disk p vs hash reg).1.groups ≡ reg.groups)
          × ((load_ids disk p vs hash reg).1.db ≡ reg.db)
    unfolding load_ids last_hash
    load_ids-last_hash p [] hash reg = (refl, refl, refl)
    load_ids-last_hash p (v ∷ vs) hash reg = elim (Option-cases (disk.get reg.db (itoa v))) [
      | inl e ↦ let ih = load_ids-last_hash p vs hash reg in ground (arith, ih)
      | inr (h, e) ↦
          let ih = load_ids-last_hash p vs (bytes_to_hash h) (record reg {
            id_hash = insert v (bytes_to_hash h) reg.id_hash;
            bls_hash_groups = insert (bytes_to_hash h) p reg.bls_hash_groups;
            bls_groups = insert v p reg.bls_groups;
          }) in
          ground (arith, ih)
    ]

  -- Where a group is saved, and nothing for a higher id, its hash is the last one.
  module _ (law : IsDisk) where
    saved-get :
        (info : BlsGroupInfo) (enc : Bytes) (db : D) (j : Bytes)
        → disk.encode_info info ≡ some enc
        → disk.get (save_bls_info disk info db).0 j ≡ (
            if bytes_beq j (itoa info.gid)
            then some (hash_bytes info.hash)
            else if bytes_beq j (hash_bytes info.hash)
            then some enc
            else disk.get db j)
    unfolding save_bls_info
    saved-get info enc db j e =
        let db1 = (disk.put db (hash_bytes info.hash) enc).0 in
        ground (
          arith,
          law.put_ok db (hash_bytes info.hash) enc,
          law.get-put db1 j (itoa info.gid) (hash_bytes info.hash),
          law.get-put db j (hash_bytes info.hash) enc,
        )

    saved-id :
        (info : BlsGroupInfo) (enc : Bytes) (db : D) (v : ℕ)
        → disk.encode_info info ≡ some enc
        → v ≤ 2
        → info.gid ≤ 2
        → disk.get (save_bls_info disk info db).0 (itoa v)
          ≡ (if v == info.gid then some (hash_bytes info.hash) else disk.get db (itoa v))
    saved-id info enc db v e hv h = ground (
      arith,
      saved-get info enc db (itoa v) e,
      key_same v info.gid (omega arith) (omega arith),
      key_other v info.hash (omega arith),
    )

    saved-last_hash :
        (info : BlsGroupInfo) (enc : Bytes) (db : D)
        → disk.encode_info info ≡ some enc
        → info.hash < 256 ^ 32
        → info.gid ≤ 2
        → ((v : ℕ) → info.gid < v → v ≤ 2 → disk.get db (itoa v) ≡ none)
        → (last_hash (0 ∷ 1 ∷ 2 ∷ []) (save_bls_info disk info db).0 0 ≡ info.hash)
          × (disk.get (save_bls_info disk info db).0 (hash_bytes info.hash) ≡ some enc)
    unfolding last_hash
    saved-last_hash info enc db e small h none_later =
        let at0 = saved-id info enc db 0 e (omega arith) h in
        let at1 = saved-id info enc db 1 e (omega arith) h in
        let at2 = saved-id info enc db 2 e (omega arith) h in
        let read = hash_read info.hash small in
        (
          elim (Bool-cases (2 == info.gid)) [
            | inl two ↦ ground (arith, at2, read)
            | inr not_two ↦ elim (Bool-cases (1 == info.gid)) [
              | inl one ↦ ground (arith, at1, at2, read, none_later 2 (ground arith) (omega arith))
              | inr not_one ↦ ground (
                arith,
                at0,
                at1,
                at2,
                read,
                none_later 1 (ground arith) (omega arith),
                none_later 2 (ground arith) (omega arith),
              )
            ]
          ],
          ground (
            arith,
            saved-get info enc db (hash_bytes info.hash) e,
            key_other_sym info.gid info.hash (omega arith),
            (bytes_beq_iff (hash_bytes info.hash) (hash_bytes info.hash)).1 refl,
          ),
        )

module _ {I K P S D : Type 0} (c : Curve I K P S) (disk : Disk D) (law : IsDisk disk) where
  -- x
  load_bls_info-save_bls_info :
      (info : BlsGroupInfo) (db : D) (p : ℕ) (reg : Registry I K P D) (g : BlsGroup I K P)
      → (save_bls_info disk info db).1 ≡ false
      → info.hash < 256 ^ 32
      → info.gid ≤ 2
      → ((v : ℕ) → info.gid < v → v ≤ 2 → disk.get db (itoa v) ≡ none)
      → lookup p reg.groups ≡ some g
      → elem g.self info.members ≡ true
      → reg.db ≡ (save_bls_info disk info db).0
      → ((load_bls_info c disk p reg).0 ≡ false)
        × (get_group c info.gid (load_bls_info c disk p reg).1 ≡ some (with_info c info g))
  unfolding load_bls_info get_group
  load_bls_info-save_bls_info info db p reg g saved small id none_later at inside same =
      let (enc, e) = save-encoded disk info db saved in
      let (last, found) = saved-last_hash disk law info enc db e small id none_later in
      let (h, groups, kept) = load_ids-last_hash disk p (0 ∷ 1 ∷ 2 ∷ []) 0 reg in
      let r1 = (load_ids disk p (0 ∷ 1 ∷ 2 ∷ []) 0 reg).1 in
      let decoded = law.decode-encode info enc e in
      let put_group = lookup-insert p p (with_info c info g) r1.groups in
      let put_id = lookup-insert info.gid info.gid p r1.bls_groups in
      let self_p = ==_self p in
      let self_id = ==_self info.gid in
      let here : lookup p r1.groups ≡ some g = ap (lookup p) groups ∙ at in
      let hash : (load_ids disk p (0 ∷ 1 ∷ 2 ∷ []) 0 reg).0 ≡ info.hash =
        h ∙ ap (λ d. last_hash disk (0 ∷ 1 ∷ 2 ∷ []) d 0) same ∙ last in
      let read : disk.get r1.db (hash_bytes (load_ids disk p (0 ∷ 1 ∷ 2 ∷ []) 0 reg).0) ≡ some enc =
        ap (λ x. disk.get r1.db (hash_bytes x)) hash
        ∙ ap (λ d. disk.get d (hash_bytes info.hash)) (kept ∙ same)
        ∙ found in
      (ground arith, ground arith)

  -- If `saveBlsInfo` saved a group without an error, whose id is at most 2 and whose hash has
  -- 256 bits, where nothing is saved for a higher id, then `LoadBlsInfo` of a group of one of
  -- its members has no error, and `GetGroup` of the id has the saved keys, size and threshold,
  -- and as many of the saved members as the group had places for. Keys are read back from their
  -- texts, and the database and the codec keep `IsDisk`.
  pub load_bls_info-info_of :
      (g0 g : BlsGroup I K P) (db : D) (p : ℕ) (reg : Registry I K P D)
      → ((s old : K) → c.set_sec_hex (c.sec_hex s) old ≡ s)
      → ((k old : P) → c.set_pub_hex (c.pub_hex k) old ≡ k)
      → (save_bls_info disk (info_of c g0) db).1 ≡ false
      → g0.hash < 256 ^ 32
      → g0.gid ≤ 2
      → ((v : ℕ) → g0.gid < v → v ≤ 2 → disk.get db (itoa v) ≡ none)
      → lookup p reg.groups ≡ some g
      → elem g.self g0.members ≡ true
      → reg.db ≡ (save_bls_info disk (info_of c g0) db).0
      → ((load_bls_info c disk p reg).0 ≡ false)
        × (g' : BlsGroup I K P) × (get_group c g0.gid (load_bls_info c disk p reg).1 ≡ some g')
        × (g'.sec ≡ g0.sec)
        × (g'.pub_key ≡ g0.pub_key)
        × (g'.n ≡ g0.n)
        × (g'.k ≡ g0.k)
        × (g'.is_create ≡ true)
        × (g'.members ≡ copy_members g.members g0.members)
  unfolding info_of with_info
  load_bls_info-info_of g0 g db p reg sec_read pub_read saved small id none_later at inside same =
      let (no_error, found) =
        load_bls_info-save_bls_info (info_of c g0) db p reg g saved small id none_later at inside
          same in
      (
        no_error,
        with_info c (info_of c g0) g,
        found,
        sec_read g0.sec g.sec,
        pub_read g0.pub_key g.pub_key,
        refl,
        refl,
        refl,
        refl,
      )

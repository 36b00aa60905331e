-- ===== src/State/Bind.antt =====
-- Creating accounts and spaces, and binding the one to the other
-- (libraries/chain/space/state/statemanage.go).
pub mod Missing
use gocoin.Common.{
  Bool, Option, [], false, if◌then◌else◌, lookup, none, pos, some, true, ℕ, ◌%◌, ◌+◌, ◌^◌, nat_eq,
}
use gocoin.State.Account.{AccountObject, new_account_object, account_empty, set_space_id}
use gocoin.State.Space.{new_space_object, append_address, remove_address}
use gocoin.State.Backend.{Backend}
use gocoin.State.Db.{
  StateDb, space_key, get_account_object, get_space_object, set_account_object, set_space_object,
  modify_account, modify_space,
}

module _ {T : Type 0} where
  -- `createAccountObject`: a new object unless the lookup failed; then what the lookup found,
  -- and an error.
  unfoldable pub create_account_object : Backend T → ℕ → ℕ → StateDb T → Option ℕ × Bool × StateDb T
  unfolding set_account_object new_account_object
  create_account_object b id addr s =
      let (prev, err, s') = get_account_object b addr s in
      if err then (prev, true, s') else (
        some addr,
        false,
        set_account_object
            (new_account_object addr (record {
              bind_space_id = some 0;
              balance = some (pos 0);
              wallet_id = id;
              code_hash = [];
              account_key = [];
              account_value = [];
            }))
            s',
      )

  -- `CreateSpaceObject`
  unfoldable pub create_space_object : Backend T → ℕ → StateDb T → Option ℕ × Bool × StateDb T
  unfolding set_space_object new_space_object
  create_space_object b id s =
      let (p, _, s') = get_space_object b id s in
      elim p [
        | none ↦ (
          some (space_key id),
          false,
          set_space_object
              (new_space_object id (record { nonce = 0; balance = some (pos 0); bind_addr = [] }))
              s',
        )
        | some k ↦ (some k, true, s')
      ]

  -- `unassociateSpaceAndAccount`, on two pointers that may be nil.
  unfoldable pub unassociate_space_and_account : Option ℕ → Option ℕ → StateDb T → StateDb T
  unassociate_space_and_account none acc s = s
  unassociate_space_and_account (some k) none s = s
  unassociate_space_and_account (some k) (some a) s = elim (lookup a s.account_objects) [
    | none ↦ s
    | some o ↦ modify_space k (remove_address o.address) (modify_account a (set_space_id 0) s)
  ]

  -- The part of `associateSpaceAndAccount` that undoes the binding of an account that is not empty.
  unfoldable pub detach : Backend T → ℕ → AccountObject → StateDb T → StateDb T
  unfolding unassociate_space_and_account
  detach b a acc s =
      if account_empty acc
      then s
      else (let (prev, err, s') = get_space_object b acc.bind_space_id s in
          if err then s' else unassociate_space_and_account prev (some a) s')

  -- `associateSpaceAndAccount`
  unfoldable pub associate_space_and_account :
      Backend T → Option ℕ → Option ℕ → StateDb T → StateDb T
  unfolding detach
  associate_space_and_account b none acc s = s
  associate_space_and_account b (some k) none s = s
  associate_space_and_account b (some k) (some a) s = elim (lookup k s.space_objects) [
    | none ↦ s
    | some sp ↦ elim (lookup a s.account_objects) [
      | none ↦ s
      | some acc ↦
          modify_space k (append_address acc.address)
            (modify_account a (set_space_id sp.id) (detach b a acc s))
    ]
  ]

  -- `BindAddr`: the next wallet id, and the state. The increment is one of a uint64.
  unfoldable pub bind_addr : Backend T → ℕ → ℕ → ℕ → StateDb T → ℕ × StateDb T
  bind_addr b id walletid addr s =
      let (space, err, s1) = get_space_object b id s in
      if err
      then (walletid, s1)
      else (let (acc, err', s2) = get_account_object b addr s1 in
          if err'
          then (let (newacc, _, s3) = create_account_object b walletid addr s2 in
              elim newacc [
                | none ↦ (walletid, s3)
                | some a ↦
                    ((walletid + 1) % 2 ^ 64, associate_space_and_account b space (some a) s3)
              ])
          else (walletid, associate_space_and_account b space acc s2))

  -- `UnbindAddr`
  unfoldable pub unbind_addr : Backend T → ℕ → ℕ → StateDb T → StateDb T
  unbind_addr b id addr s =
      let (space, _, s1) = get_space_object b id s in
      elim space [
        | none ↦ s1
        | some k ↦
            let (acc, err, s2) = get_account_object b addr s1 in
            if err then s2 else unassociate_space_and_account (some k) acc s2
      ]

  -- `CreateSpaceAndBindAddr`: the next wallet id, and the state. The `err` that is tested is the
  -- one of `CreateSpaceObject`; `GetAccountObject` returns nil where its lookup failed.
  unfoldable pub create_space_and_bind_addr : Backend T → ℕ → ℕ → ℕ → StateDb T → ℕ × StateDb T
  create_space_and_bind_addr b id walletid addr s =
      let (acc, _, s1) = get_account_object b addr s in
      elim acc [
        | none ↦
            let (newacc, _, s2) = create_account_object b walletid addr s1 in
            let (newspa, err, s3) = create_space_object b id s2 in
            let s4 = if err then s3 else associate_space_and_account b newspa newacc s3 in
            (elim newacc [ none ↦ walletid | some _ ↦ (walletid + 1) % 2 ^ 64 ], s4)
        | some a ↦
            let (newspa, err, s2) = create_space_object b id s1 in
            (walletid, if err then s2 else associate_space_and_account b newspa (some a) s2)
      ]

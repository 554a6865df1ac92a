-- ===== src/Socket/Acceptance.antt =====
-- What a join that is let in does.
use multy_back.Prelude.{
  ℕ, find, ap, ◌∙◌, ◌+◌, ◌≡◌, refl, true, false, some, List, [], ◌∷◌, ◌++◌, arith, any, length,
  length-append, length-map, map, keep_if, if◌then◌else◌, Str, i64_gt, ◌==◌,
}
use multy_back.Store.Schemas.{User, Multisig, all_joined, waiting_for_join, msg_join}
use multy_back.Store.Collection.{ok, Collection, modify}
use multy_back.Store.Multisigs.{
  is_user, check_invite_code, find_multisig_users, is_related_address, check_multisig_currency,
  find_multisig, join_multisig,
}
use multy_back.Socket.Messages.{Scene, MultisigMsg, Payload, entity, broadcast, done, Sent}
use multy_back.Socket.Owners.{update_user_owners, announce, clean}
use multy_back.Socket.Joined.{bare_user, announce-bare, announce-find}
use multy_back.Store.Pointwise.{find-modify_own}
use multy_back.Socket.Join.{
  joined, joiner, is_full_after, status_after, join_answer, join_write, join_found, join,
}

module _ (c : Collection User) (e : Scene) where
  -- The users of a list who are online, each with the message to them.
  abbrev pub to_online : ℕ → Payload → List User → List Sent
  to_online kind payload users =
      map (λ (u : User). broadcast e kind u.user_id payload)
        (keep_if (λ (u : User). e.online u.user_id) users)

  pub announce-sent :
      (kind : ℕ) (payload : Payload) (m : Multisig) (status : ℕ) (users : List User) (s : c.State)
      → (announce c e kind payload m status users s).0 ≡ to_online kind payload users
  unfolding announce
  announce-sent kind payload m status [] s = refl
  announce-sent kind payload m status (user ∷ users) s =
      ground (
        arith,
        announce-sent kind payload m status users (update_user_owners c e user m status s).1,
      )

  length-joined :
      (msg : MultisigMsg) (m : Multisig) → length (joined msg m).owners ≡ length m.owners + 1
  unfolding joined
  length-joined msg m =
      omega (arith, length-append (map clean m.owners) (joiner msg ∷ []), length-map m.owners clean)

  join_multisig_ok :
      (id : Str) (m : Multisig) (s : c.State)
      → (join_multisig c id m s).0 ≡ ok tt
      → c.docs (join_multisig c id m s).1
        ≡ modify (is_user id) (λ u. record u { multisigs = u.multisigs ++ m ∷ [] }) (c.docs s)
  unfolding join_multisig
  join_multisig_ok id m s written = c.update_ok _ _ s written

  joined-status :
      (msg : MultisigMsg) (m : Multisig)
      → m.deploy_status ≡ waiting_for_join
      → (joined msg m).deploy_status
        ≡ (if length m.owners + 1 == m.owners_count then all_joined else waiting_for_join)
  unfolding joined is_full_after
  joined-status msg m waiting = ground arith

  -- The document of a user with one multisig more.
  abbrev pub gains : Multisig → User → User
  gains m u = record u { multisigs = u.multisigs ++ m ∷ [] }

  join_multisig-find :
      (id : Str) (m : Multisig) (s : c.State)
      → (join_multisig c id m s).0 ≡ ok tt
      → (u : User) × (find (is_user id) (c.docs s) ≡ some u)
        × (find (is_user id) (c.docs (join_multisig c id m s).1) ≡ some (gains m u))
  unfolding join_multisig is_user
  join_multisig-find id m s written =
      let (u, before, after) =
        find-modify_own (is_user id) (gains m) (c.docs s) (λ x. refl)
          (c.update_found (is_user id) (gains m) s written) in
      (u, before, ap (find (is_user id)) (join_multisig_ok id m s written) ∙ after)

  -- A user who is no member, joins with an address of one of their wallets for the code's currency
  -- and network, and finds room, is let in: the reply is ok, each member online is told of the
  -- multisig with one owner more, whose status is that all have joined exactly if the last place was
  -- taken, where it was waiting before. After the handler the document of the user has that multisig at
  -- its end and is otherwise as before, and all users have the documents that this join alone makes,
  -- but for the owners and the status of multisigs.
  pub join_accepted :
      (msg : MultisigMsg) (m : Multisig) (s : c.State)
      → check_invite_code c msg.invite_code s ≡ false
      → any (is_user msg.user_id) (find_multisig_users c msg.invite_code s) ≡ false
      → is_related_address c msg.user_id msg.address s ≡ true
      → check_multisig_currency c msg.invite_code msg.currency_id msg.network_id s ≡ true
      → find_multisig c msg.invite_code s ≡ some m
      → i64_gt m.owners_count (length m.owners) ≡ true
      → (join_multisig c msg.user_id (joined msg m) s).0 ≡ ok tt
      → m.deploy_status ≡ waiting_for_join
      → ((join c e msg s).reply ≡ done e msg_join msg.user_id)
        × ((join c e msg s).sent
            ≡ to_online msg_join (entity (joined msg m)) (find_multisig_users c msg.invite_code s))
        × ((u : User) × (find (is_user msg.user_id) (c.docs s) ≡ some u)
            × (find (is_user msg.user_id) (c.docs (join c e msg s).state)
                ≡ some (gains (joined msg m) u)))
        × (map bare_user (c.docs (join c e msg s).state)
            ≡ map bare_user (modify (is_user msg.user_id) (gains (joined msg m)) (c.docs s)))
        × (length (joined msg m).owners ≡ length m.owners + 1)
        × ((joined msg m).deploy_status
            ≡ (if length m.owners + 1 == m.owners_count then all_joined else waiting_for_join))
  unfolding join join_found join_write join_answer
  join_accepted msg m s known new related currency found room written waiting =
      let s' = (join_multisig c msg.user_id (joined msg m) s).1 in
      let users = find_multisig_users c msg.invite_code s in
      let own = join_multisig-find msg.user_id (joined msg m) s written in
      rw (known, new, related, currency, found, room, written)
        (
          refl,
          announce-sent msg_join (entity (joined msg m)) (joined msg m) (status_after m) users s',
          (
            own.0,
            own.1,
            announce-find c e msg.user_id msg_join (entity (joined msg m)) (joined msg m)
                  (status_after m) users s' new
                ∙ own.2,
          ),
          announce-bare c e msg_join (entity (joined msg m)) (joined msg m) (status_after m) users
                s'
              ∙ ap (map bare_user) (join_multisig_ok msg.user_id (joined msg m) s written),
          length-joined msg m,
          joined-status msg m waiting,
        )

-- ===== src/Socket/Refusals.antt =====
-- Requests that a handler turns down change nothing and tell nobody.
use multy_back.Prelude.{
  ◌≡◌, refl, Bool, true, false, not, Option, none, some, [], ◌⊎◌, inl, inr, arith, any, length,
  i64_gt,
}
use multy_back.Store.Schemas.{User, Multisig}
use multy_back.Store.Collection.{Collection}
use multy_back.Store.Multisigs.{
  is_user, check_invite_code, find_multisig_users, is_related_address, check_multisig_currency,
  find_multisig,
}
use multy_back.Socket.Messages.{Scene, MultisigMsg, Outcome, at_address, is_creator_at}
use multy_back.Socket.Join.{join_found, join}
use multy_back.Socket.Leave.{leave_found, leave}
use multy_back.Socket.Kick.{kick_found, kick}
use multy_back.Socket.Delete.{delete_found, delete}

-- The state is the one before, and nothing is broadcast.
abbrev pub IsIdle : {S : Type 0} → S → Outcome S → Type 0
IsIdle s o = (o.state ≡ s) × (o.sent ≡ [])

abbrev pub is_full : Multisig → Bool
is_full m = not (i64_gt m.owners_count (length m.owners))

module _ (c : Collection User) (e : Scene) where
  join_found-full :
      (msg : MultisigMsg) (o : Option Multisig) (s : c.State)
      → ((m : Multisig) → o ≡ some m → is_full m ≡ true)
      → IsIdle s (join_found c e msg o s)
  unfolding join_found
  join_found-full msg none s full = (refl, refl)
  join_found-full msg (some m) s full = ground (arith, full m refl)

  -- A join is turned down, with no write and no broadcast, if any one of these holds: no user has the
  -- invite code; the user is a member already; the address is not the user's; the code is for
  -- another currency or network; the multisig found for the code has all its owners.
  pub join_refused :
      (msg : MultisigMsg) (s : c.State)
      → (check_invite_code c msg.invite_code s ≡ true)
        ⊎ ((any (is_user msg.user_id) (find_multisig_users c msg.invite_code s) ≡ true)
            ⊎ ((is_related_address c msg.user_id msg.address s ≡ false)
                ⊎ ((check_multisig_currency c msg.invite_code msg.currency_id msg.network_id s
                      ≡ false)
                    ⊎ ((m : Multisig)
                        → find_multisig c msg.invite_code s ≡ some m
                        → is_full m ≡ true))))
      → IsIdle s (join c e msg s)
  unfolding join
  join_refused msg s (inl h) = ground arith
  join_refused msg s (inr (inl h)) = ground arith
  join_refused msg s (inr (inr (inl h))) = ground arith
  join_refused msg s (inr (inr (inr (inl h)))) = ground arith
  join_refused msg s (inr (inr (inr (inr full)))) =
      ground (arith, join_found-full msg (find_multisig c msg.invite_code s) s full)

  module _ (msg : MultisigMsg) where
    abbrev pub NoCreator : Option Multisig → Type 0
    NoCreator o = (m : Multisig) → o ≡ some m → any (is_creator_at msg.address) m.owners ≡ false

    kick_found_refused :
        (o : Option Multisig) (s : c.State) → NoCreator o → IsIdle s (kick_found c e msg o s)
    unfolding kick_found
    kick_found_refused none s h = (refl, refl)
    kick_found_refused (some m) s h = ground (arith, h m refl)

    delete_found_refused :
        (o : Option Multisig) (s : c.State) → NoCreator o → IsIdle s (delete_found c e msg o s)
    unfolding delete_found
    delete_found_refused none s h = (refl, refl)
    delete_found_refused (some m) s h = ground (arith, h m refl)

    -- To expel an owner and to delete a multisig is for the address of its creator: for any other
    -- nothing is written, and nothing broadcast.
    pub only_creator :
        (s : c.State)
        → NoCreator (find_multisig c msg.invite_code s)
        → IsIdle s (kick c e msg s) × IsIdle s (delete c e msg s)
    unfolding kick delete
    only_creator s h = (
      ground (arith, kick_found_refused (find_multisig c msg.invite_code s) s h),
      ground (arith, delete_found_refused (find_multisig c msg.invite_code s) s h),
    )

    abbrev pub NoPlainOwner : Option Multisig → Type 0
    NoPlainOwner o =
        (m : Multisig)
        → o ≡ some m
        → (any (is_creator_at msg.address) m.owners ≡ true)
          ⊎ (any (at_address msg.address) m.owners ≡ false)

    leave_found_refused :
        (o : Option Multisig) (s : c.State) → NoPlainOwner o → IsIdle s (leave_found c e msg o s)
    unfolding leave_found
    leave_found_refused none s h = (refl, refl)
    leave_found_refused (some m) s h = ground (arith, h m refl)

    -- The creator cannot leave, and neither can one who is no owner.
    pub leave_refused :
        (s : c.State)
        → NoPlainOwner (find_multisig c msg.invite_code s)
        → IsIdle s (leave c e msg s)
    unfolding leave
    leave_refused s h = ground (arith, leave_found_refused (find_multisig c msg.invite_code s) s h)

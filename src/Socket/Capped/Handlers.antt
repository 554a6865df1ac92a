-- ===== src/Socket/Capped/Handlers.antt =====
-- The four handlers that change a multisig keep every multisig within its number of owners.
use multy_back.Prelude.{
  ℕ, ◌+◌, ◌≤◌, ◌<◌, ◌^◌, ◌≡◌, refl, Bool, true, not, Option, none, some, List, [], ◌∷◌, arith,
  length, length-append, length-map, map, keep_if, Str, i64_gt, Bool-cases, inl, inr,
}
use multy_back.Store.Schemas.{User, Multisig, AddressExtended}
use multy_back.Store.Collection.{Answer, ok, not_found, failed, Collection}
use multy_back.Store.Multisigs.{find_multisig_users, find_multisig, delete_multisig}
use multy_back.Socket.Messages.{Scene, MultisigMsg, at_address}
use multy_back.Socket.Owners.{clean}
use multy_back.Socket.Join.{joiner, joined, join_answer, join_write, join_found, join}
use multy_back.Socket.Leave.{without_owner, leave_answer, leave_write, leave_found, leave}
use multy_back.Socket.Kick.{kick_answer, kick_write, kick_found, kick}
use multy_back.Socket.Delete.{delete_answer, delete_found, delete}
use multy_back.Socket.Capped.{
  IsCappedMultisig, AllCapped, join_multisig-AllCapped, leave_multisig-AllCapped,
  kick_multisig-AllCapped, delete_multisig-AllCapped, find_multisig-IsCapped,
}
use multy_back.Socket.Capped.Owners.{IsScene, announce-AllCapped}

length-keep_if :
    (p : AddressExtended → Bool) (xs : List AddressExtended) → length (keep_if p xs) ≤ length xs
length-keep_if p [] = omega arith
length-keep_if p (x ∷ xs) = ground (arith, length-keep_if p xs)

length-joined :
    (msg : MultisigMsg) (m : Multisig) → length (joined msg m).owners ≡ length m.owners + 1
unfolding joined
length-joined msg m =
    omega (arith, length-append (map clean m.owners) (joiner msg ∷ []), length-map m.owners clean)

i64_gt-lt : (a b : ℕ) → a < 2 ^ 63 → b ≤ a → i64_gt a b ≡ true → b < a
unfolding i64_gt
i64_gt-lt a b ha le h = ground arith

module _ (cap : Str → ℕ) where
  joined-IsCapped :
      (msg : MultisigMsg) (m : Multisig)
      → IsCappedMultisig cap m
      → i64_gt m.owners_count (length m.owners) ≡ true
      → IsCappedMultisig cap (joined msg m)
  unfolding joined
  joined-IsCapped msg m h room = omega (
    arith,
    length-joined msg m,
    i64_gt-lt m.owners_count (length m.owners) h.counted h.fits room,
    h.fits,
    h.agreed,
    h.counted,
  )

  without_owner-few :
      (a : Str) (m : Multisig)
      → IsCappedMultisig cap m
      → length (without_owner a m).owners ≤ cap m.invite_code
  unfolding without_owner
  without_owner-few a m h =
      omega (arith, length-keep_if (λ o. not (at_address a o)) m.owners, h.fits, h.agreed)

module _ (cap : Str → ℕ) (c : Collection User) (e : Scene) (once : IsScene e) where
  join_answer-AllCapped :
      (msg : MultisigMsg) (m : Multisig) (users : List User) (a : Answer (Unit {0})) (s : c.State)
      → IsCappedMultisig cap (joined msg m)
      → AllCapped cap c s
      → AllCapped cap c (join_answer c e msg m users a s).state
  unfolding join_answer
  join_answer-AllCapped msg m users (ok u) s h all =
      announce-AllCapped cap c e once _ _ (joined msg m) _ users s (omega (arith, h.fits, h.agreed))
        all
  join_answer-AllCapped msg m users not_found s h all = all
  join_answer-AllCapped msg m users (failed why) s h all = all

  join_write-AllCapped :
      (msg : MultisigMsg) (m : Multisig) (s : c.State)
      → IsCappedMultisig cap (joined msg m)
      → AllCapped cap c s
      → AllCapped cap c (join_write c e msg m s).state
  unfolding join_write
  join_write-AllCapped msg m s h all =
      join_answer-AllCapped msg m _ _ _ h
        (join_multisig-AllCapped cap c msg.user_id (joined msg m) s h all)

  join_found-AllCapped :
      (msg : MultisigMsg) (o : Option Multisig) (s : c.State)
      → ((m : Multisig) → o ≡ some m → IsCappedMultisig cap m)
      → AllCapped cap c s
      → AllCapped cap c (join_found c e msg o s).state
  unfolding join_found
  join_found-AllCapped msg none s h all = all
  join_found-AllCapped msg (some m) s h all =
      elim (Bool-cases (i64_gt m.owners_count (length m.owners))) [
        | inl room ↦
            rw room (join_write-AllCapped msg m s (joined-IsCapped cap msg m (h m refl) room) all)
        | inr full ↦ rw full all
      ]

  -- What `FindMultisig` finds in a capped state.
  found-IsCapped :
      (code : Str) (s : c.State)
      → AllCapped cap c s
      → (m : Multisig) → find_multisig c code s ≡ some m
      → IsCappedMultisig cap m
  found-IsCapped code s all m e = (find_multisig-IsCapped cap c code s m all e).0

  pub join-AllCapped :
      (msg : MultisigMsg) (s : c.State) → AllCapped cap c s → AllCapped cap c (join c e msg s).state
  unfolding join
  join-AllCapped msg s all = ground (
    arith,
    join_found-AllCapped msg (find_multisig c msg.invite_code s) s
        (found-IsCapped msg.invite_code s all),
  )

  leave_answer-AllCapped :
      (msg : MultisigMsg) (m : Multisig) (a : Answer (Unit {0})) (s : c.State)
      → IsCappedMultisig cap m
      → AllCapped cap c s
      → AllCapped cap c (leave_answer c e msg m a s).state
  unfolding leave_answer without_owner
  leave_answer-AllCapped msg m (ok u) s h all =
      announce-AllCapped cap c e once _ _ (without_owner msg.address m) _ _ s
        (without_owner-few cap msg.address m h) all
  leave_answer-AllCapped msg m not_found s h all = all
  leave_answer-AllCapped msg m (failed why) s h all = all

  leave_write-AllCapped :
      (msg : MultisigMsg) (m : Multisig) (s : c.State)
      → IsCappedMultisig cap m
      → AllCapped cap c s
      → AllCapped cap c (leave_write c e msg m s).state
  unfolding leave_write
  leave_write-AllCapped msg m s h all =
      leave_answer-AllCapped msg m _ _ h
        (leave_multisig-AllCapped cap c msg.user_id msg.invite_code s all)

  leave_found-AllCapped :
      (msg : MultisigMsg) (o : Option Multisig) (s : c.State)
      → ((m : Multisig) → o ≡ some m → IsCappedMultisig cap m)
      → AllCapped cap c s
      → AllCapped cap c (leave_found c e msg o s).state
  unfolding leave_found
  leave_found-AllCapped msg none s h all = all
  leave_found-AllCapped msg (some m) s h all =
      ground (arith, leave_write-AllCapped msg m s (h m refl) all)

  pub leave-AllCapped :
      (msg : MultisigMsg) (s : c.State)
      → AllCapped cap c s
      → AllCapped cap c (leave c e msg s).state
  unfolding leave
  leave-AllCapped msg s all = ground (
    arith,
    leave_found-AllCapped msg (find_multisig c msg.invite_code s) s
        (found-IsCapped msg.invite_code s all),
  )

  kick_answer-AllCapped :
      (msg : MultisigMsg) (m : Multisig) (users : List User) (a : Answer (Unit {0})) (s : c.State)
      → IsCappedMultisig cap m
      → AllCapped cap c s
      → AllCapped cap c (kick_answer c e msg m users a s).state
  unfolding kick_answer without_owner
  kick_answer-AllCapped msg m users (ok u) s h all =
      announce-AllCapped cap c e once _ _ (without_owner msg.address_to_kick m) _ users s
        (without_owner-few cap msg.address_to_kick m h) all
  kick_answer-AllCapped msg m users not_found s h all = all
  kick_answer-AllCapped msg m users (failed why) s h all = all

  kick_write-AllCapped :
      (msg : MultisigMsg) (m : Multisig) (s : c.State)
      → IsCappedMultisig cap m
      → AllCapped cap c s
      → AllCapped cap c (kick_write c e msg m s).state
  unfolding kick_write
  kick_write-AllCapped msg m s h all =
      kick_answer-AllCapped msg m _ _ _ h
        (kick_multisig-AllCapped cap c msg.address_to_kick msg.invite_code s all)

  kick_found-AllCapped :
      (msg : MultisigMsg) (o : Option Multisig) (s : c.State)
      → ((m : Multisig) → o ≡ some m → IsCappedMultisig cap m)
      → AllCapped cap c s
      → AllCapped cap c (kick_found c e msg o s).state
  unfolding kick_found
  kick_found-AllCapped msg none s h all = all
  kick_found-AllCapped msg (some m) s h all =
      ground (arith, kick_write-AllCapped msg m s (h m refl) all)

  pub kick-AllCapped :
      (msg : MultisigMsg) (s : c.State) → AllCapped cap c s → AllCapped cap c (kick c e msg s).state
  unfolding kick
  kick-AllCapped msg s all = ground (
    arith,
    kick_found-AllCapped msg (find_multisig c msg.invite_code s) s
        (found-IsCapped msg.invite_code s all),
  )

  delete_answer-AllCapped :
      (msg : MultisigMsg) (users : List User) (a : Answer (Unit {0})) (s : c.State)
      → AllCapped cap c s
      → AllCapped cap c (delete_answer c e msg users a s).state
  unfolding delete_answer
  delete_answer-AllCapped msg users (ok u) s all = all
  delete_answer-AllCapped msg users not_found s all = all
  delete_answer-AllCapped msg users (failed why) s all = all

  delete_found-AllCapped :
      (msg : MultisigMsg) (o : Option Multisig) (s : c.State)
      → AllCapped cap c s
      → AllCapped cap c (delete_found c e msg o s).state
  unfolding delete_found
  delete_found-AllCapped msg none s all = all
  delete_found-AllCapped msg (some m) s all =
      let users = find_multisig_users c msg.invite_code s in
      let r = delete_multisig c msg.invite_code s in
      ground (
        arith,
        delete_answer-AllCapped msg users r.0 r.1
            (delete_multisig-AllCapped cap c msg.invite_code s all),
      )

  pub delete-AllCapped :
      (msg : MultisigMsg) (s : c.State)
      → AllCapped cap c s
      → AllCapped cap c (delete c e msg s).state
  unfolding delete
  delete-AllCapped msg s all =
      ground (arith, delete_found-AllCapped msg (find_multisig c msg.invite_code s) s all)

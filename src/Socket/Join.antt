-- ===== src/Socket/Join.antt =====
-- `message:send` of a join.
use multy_back.Prelude.{
  ℕ, ◌+◌, Bool, true, false, not, Option, none, some, List, [], ◌∷◌, ◌++◌, ◌==◌, length, map, any,
  if◌then◌else◌, i64_gt, codes,
}
use multy_back.Store.Schemas.{
  User, Multisig, AddressExtended, msg_join, all_joined, waiting_for_join,
}
use multy_back.Store.Collection.{Answer, ok, not_found, failed, Collection}
use multy_back.Store.Multisigs.{
  is_user, check_invite_code, find_multisig_users, is_related_address, check_multisig_currency,
  find_multisig, join_multisig,
}
use multy_back.Socket.Messages.{
  Scene, MultisigMsg, Outcome, make_err, no_multisig, refuse, done, entity,
}
use multy_back.Socket.Owners.{clean, announce}

unfoldable pub joiner : MultisigMsg → AddressExtended
joiner msg = record {
  user_id = msg.user_id;
  address = msg.address;
  associated = true;
  creator = false;
  wallet_index = msg.wallet_index;
  address_index = 0;
}

unfoldable pub is_full_after : Multisig → Bool
is_full_after m = length m.owners + 1 == m.owners_count

-- `multisigToJoin`, which is the same object as `multisig`.
unfoldable pub joined : MultisigMsg → Multisig → Multisig
joined msg m = record m {
  owners = map clean m.owners ++ joiner msg ∷ [];
  deploy_status = if is_full_after m then all_joined else m.deploy_status;
}

unfoldable pub status_after : Multisig → ℕ
status_after m = if is_full_after m then all_joined else waiting_for_join

module _ (c : Collection User) (e : Scene) where
  -- After `JoinMultisig` has answered.
  unfoldable pub join_answer :
      MultisigMsg → Multisig → List User → Answer (Unit {0}) → c.State → Outcome c.State
  join_answer msg m users (ok _) s =
      let r =
        announce c e msg_join (entity (joined msg m)) (joined msg m) (status_after m) users s in
      record { state = r.1; sent = r.0; reply = done e msg_join msg.user_id }
  join_answer msg m users not_found s =
      refuse s (make_err e msg.user_id (codes "can't join multisig: not found") msg_join)
  join_answer msg m users (failed why) s =
      refuse s (make_err e msg.user_id (codes "can't join multisig: " ++ why) msg_join)

  unfoldable pub join_write : MultisigMsg → Multisig → c.State → Outcome c.State
  join_write msg m s =
      let r = join_multisig c msg.user_id (joined msg m) s in
      join_answer msg m (find_multisig_users c msg.invite_code s) r.0 r.1

  unfoldable pub join_found : MultisigMsg → Option Multisig → c.State → Outcome c.State
  join_found msg none s = refuse s (no_multisig e msg.user_id msg_join)
  join_found msg (some m) s =
      if i64_gt m.owners_count (length m.owners)
      then join_write msg m s
      else refuse s (make_err e [] (codes "wrong request payload") msg_join)

  unfoldable pub join : MultisigMsg → c.State → Outcome c.State
  join msg s =
      if check_invite_code c msg.invite_code s
      then refuse s (make_err e [] (codes "wrong request payload") msg_join)
      else if any (is_user msg.user_id) (find_multisig_users c msg.invite_code s)
      then refuse s
          (make_err e msg.user_id (codes "we not support multiple join from same userid ") msg_join)
      else if not (is_related_address c msg.user_id msg.address s)
      then refuse s
          (make_err e msg.user_id (codes "can't add addres with is not related userid ") msg_join)
      else if not (check_multisig_currency c msg.invite_code msg.currency_id msg.network_id s)
      then refuse s (
          make_err e msg.user_id
            (codes "this invitecode accotiated with different currency/network") msg_join)
      else join_found msg (find_multisig c msg.invite_code s) s

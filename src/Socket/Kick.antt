-- ===== src/Socket/Kick.antt =====
-- `message:send` of an expulsion.
use multy_back.Prelude.{Option, none, some, List, [], ◌++◌, any, if◌then◌else◌, codes}
use multy_back.Store.Schemas.{User, Multisig, msg_kick, waiting_for_join}
use multy_back.Store.Collection.{Answer, ok, not_found, failed, Collection}
use multy_back.Store.Multisigs.{
  check_invite_code, find_multisig_users, find_multisig, kick_multisig,
}
use multy_back.Socket.Messages.{
  Scene, MultisigMsg, Outcome, make_err, no_multisig, refuse, done, extended, is_creator_at,
}
use multy_back.Socket.Owners.{announce}
use multy_back.Socket.Leave.{without_owner}

module _ (c : Collection User) (e : Scene) where
  unfoldable pub kick_answer :
      MultisigMsg → Multisig → List User → Answer (Unit {0}) → c.State → Outcome c.State
  kick_answer msg m users (ok _) s =
      let m' = without_owner msg.address_to_kick m in
      let r = announce c e msg_kick (extended m' msg.address_to_kick) m' waiting_for_join users s in
      record { state = r.1; sent = r.0; reply = done e msg_kick msg.user_id }
  kick_answer msg m users not_found s =
      refuse s (make_err e msg.user_id (codes "can't kik from multisig: not found") msg_kick)
  kick_answer msg m users (failed why) s =
      refuse s (make_err e msg.user_id (codes "can't kik from multisig: " ++ why) msg_kick)

  unfoldable pub kick_write : MultisigMsg → Multisig → c.State → Outcome c.State
  kick_write msg m s =
      let r = kick_multisig c msg.address_to_kick msg.invite_code s in
      kick_answer msg m (find_multisig_users c msg.invite_code s) r.0 r.1

  unfoldable pub kick_found : MultisigMsg → Option Multisig → c.State → Outcome c.State
  kick_found msg none s = refuse s (no_multisig e msg.user_id msg_kick)
  kick_found msg (some m) s =
      if any (is_creator_at msg.address) m.owners
      then kick_write msg m s
      else refuse s (make_err e msg.user_id (codes "only admin can kik form ms") msg_kick)

  unfoldable pub kick : MultisigMsg → c.State → Outcome c.State
  kick msg s =
      if check_invite_code c msg.invite_code s
      then refuse s (make_err e [] (codes "wrong request payload") msg_kick)
      else kick_found msg (find_multisig c msg.invite_code s) s

-- ===== src/Socket/Leave.antt =====
-- `message:send` of a departure.
use multy_back.Prelude.{not, Option, none, some, [], ◌++◌, any, keep_if, if◌then◌else◌, Str, codes}
use multy_back.Store.Schemas.{User, Multisig, msg_leave, waiting_for_join}
use multy_back.Store.Collection.{Answer, ok, not_found, failed, Collection}
use multy_back.Store.Multisigs.{
  check_invite_code, find_multisig_users, find_multisig, leave_multisig,
}
use multy_back.Socket.Messages.{
  Scene, MultisigMsg, Outcome, make_err, no_multisig, refuse, done, entity, at_address,
  is_creator_at,
}
use multy_back.Socket.Owners.{announce}

-- The multisig without the owners at an address.
unfoldable pub without_owner : Str → Multisig → Multisig
without_owner a m = record m { owners = keep_if (λ owner. not (at_address a owner)) m.owners }

module _ (c : Collection User) (e : Scene) where
  unfoldable pub leave_answer :
      MultisigMsg → Multisig → Answer (Unit {0}) → c.State → Outcome c.State
  leave_answer msg m (ok _) s =
      let m' = without_owner msg.address m in
      let users = find_multisig_users c msg.invite_code s in
      let r = announce c e msg_leave (entity m') m' waiting_for_join users s in
      record { state = r.1; sent = r.0; reply = done e msg_leave msg.user_id }
  leave_answer msg m not_found s =
      refuse s (make_err e msg.user_id (codes "can't leave multisig: not found") msg_leave)
  leave_answer msg m (failed why) s =
      refuse s (make_err e msg.user_id (codes "can't leave multisig: " ++ why) msg_leave)

  unfoldable pub leave_write : MultisigMsg → Multisig → c.State → Outcome c.State
  leave_write msg m s =
      let r = leave_multisig c msg.user_id msg.invite_code s in leave_answer msg m r.0 r.1

  unfoldable pub leave_found : MultisigMsg → Option Multisig → c.State → Outcome c.State
  leave_found msg none s = refuse s (no_multisig e msg.user_id msg_leave)
  leave_found msg (some m) s =
      if any (is_creator_at msg.address) m.owners
      then refuse s (
          make_err e msg.user_id
            (codes "can't leave multisig if you are creator you need delete it ") msg_leave)
      else if any (at_address msg.address) m.owners
      then leave_write msg m s
      else refuse s
          (make_err e msg.user_id (codes "can't leave multisig if you are not a owner") msg_leave)

  unfoldable pub leave : MultisigMsg → c.State → Outcome c.State
  leave msg s =
      if check_invite_code c msg.invite_code s
      then refuse s (make_err e [] (codes "wrong request payload: ") msg_leave)
      else leave_found msg (find_multisig c msg.invite_code s) s

-- ===== src/Socket/Delete.antt =====
-- `message:send` of a deletion.
use multy_back.Prelude.{ℕ, Option, none, some, List, [], ◌∷◌, ◌++◌, any, if◌then◌else◌, codes}
use multy_back.Store.Schemas.{User, Multisig, msg_delete}
use multy_back.Store.Collection.{Answer, ok, not_found, failed, Collection}
use multy_back.Store.Multisigs.{
  check_invite_code, find_multisig_users, find_multisig, delete_multisig,
}
use multy_back.Socket.Messages.{
  Scene, MultisigMsg, Outcome, Sent, Payload, text, make_err, broadcast, no_multisig, refuse, done,
  is_creator_at,
}

-- The loops that tell the users online, and write nothing.
unfoldable pub tell : Scene → ℕ → Payload → List User → List Sent
tell e kind payload [] = []
tell e kind payload (user ∷ users) =
    let rest = tell e kind payload users in
    if e.online user.user_id then broadcast e kind user.user_id payload ∷ rest else rest

module _ (c : Collection User) (e : Scene) where
  unfoldable pub delete_answer :
      MultisigMsg → List User → Answer (Unit {0}) → c.State → Outcome c.State
  delete_answer msg users (ok _) s = record {
    state = s;
    sent = tell e msg_delete (text msg.invite_code) users;
    reply = done e msg_delete msg.user_id;
  }
  delete_answer msg users not_found s = refuse s (
      make_err e msg.user_id (codes "server.On:deleteMultisig:DeleteMultisig not found") msg_delete)
  delete_answer msg users (failed why) s =
      refuse s (
        make_err e msg.user_id (codes "server.On:deleteMultisig:DeleteMultisig " ++ why) msg_delete)

  unfoldable pub delete_found : MultisigMsg → Option Multisig → c.State → Outcome c.State
  delete_found msg none s = refuse s (no_multisig e msg.user_id msg_delete)
  delete_found msg (some m) s =
      if any (is_creator_at msg.address) m.owners
      then (let r = delete_multisig c msg.invite_code s in
          delete_answer msg (find_multisig_users c msg.invite_code s) r.0 r.1)
      else refuse s (make_err e msg.user_id (codes "only creator can delete ms") msg_delete)

  unfoldable pub delete : MultisigMsg → c.State → Outcome c.State
  delete msg s =
      if check_invite_code c msg.invite_code s
      then refuse s (make_err e [] (codes "wrong request payload: ") msg_delete)
      else delete_found msg (find_multisig c msg.invite_code s) s

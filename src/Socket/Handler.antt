-- ===== src/Socket/Handler.antt =====
-- The handler of `message:send`: a decoded message is dispatched by its type. `none` is a panic.
use multy_back.Prelude.{
  ℕ, Bool, true, false, Option, none, some, [], ◌++◌, ◌==◌, leb, if◌then◌else◌, Str, codes,
}
use multy_back.Store.Schemas.{
  User, Multisig, TransactionEth, msg_join, msg_leave, msg_kick, msg_delete, msg_check, msg_view,
  msg_decline,
}
use multy_back.Store.Collection.{Answer, ok, not_found, failed, Collection}
use multy_back.Store.Multisigs.{
  check_invite_code, find_multisig_users, find_multisig, invite_code_info,
}
use multy_back.Store.Transactions.{
  TxState, Viewed, viewed, already_seen, panicked, view_transaction, decline_transaction,
}
use multy_back.Socket.Messages.{
  Scene, MultisigMsg, WsMessage, Payload, text, info, transaction, Outcome, make_err, refuse,
}
use multy_back.Socket.Join.{join}
use multy_back.Socket.Leave.{leave}
use multy_back.Socket.Kick.{kick}
use multy_back.Socket.Delete.{tell, delete}

module _ (c : Collection User) (t : Collection TransactionEth) where
  pub record World : Type 0 where
    pub users : c.State
    pub txs : TxState t

  abbrev pub on_users : World → Outcome c.State → Outcome World
  on_users w o = record { state = record w { users = o.state }; sent = o.sent; reply = o.reply }

  module _ (e : Scene) where
    reply_to : MultisigMsg → ℕ → Payload → WsMessage
    reply_to msg kind payload = record {
      kind = kind;
      to = msg.user_id;
      date = e.now;
      payload = payload;
    }

    unfoldable pub check : MultisigMsg → World → Outcome World
    unfolding reply_to
    check msg w =
        refuse w (reply_to msg msg_check (info (invite_code_info c msg.invite_code w.users)))

    -- The end of the two handlers on transactions: the users of the multisig are told.
    unfoldable pub tell_contract : MultisigMsg → ℕ → Str → Option Multisig → World → Outcome World
    unfolding reply_to
    tell_contract msg kind word none w =
        refuse w (make_err e [] (codes "You not owe those multisig: ") msg_decline)
    tell_contract msg kind word (some m) w = record {
      state = w;
      sent =
          tell e kind (transaction m.contract_address msg.tx_id)
            (find_multisig_users c msg.invite_code w.users);
      reply = reply_to msg kind (text word);
    }

    unfoldable pub decline_answer : MultisigMsg → Answer (Unit {0}) → World → Outcome World
    decline_answer msg (ok _) w =
        tell_contract msg msg_decline (codes "declined") (find_multisig c msg.invite_code w.users) w
    decline_answer msg not_found w =
        refuse w (make_err e [] (codes "Tx can't be declined: ") msg_decline)
    decline_answer msg (failed why) w =
        refuse w (make_err e [] (codes "Tx can't be declined: ") msg_decline)

    unfoldable pub decline : MultisigMsg → World → Outcome World
    decline msg w =
        if check_invite_code c msg.invite_code w.users
        then refuse w (make_err e [] (codes "wrong request payload: ") msg_decline)
        else (let r =
              decline_transaction t msg.tx_id msg.address msg.currency_id msg.network_id w.txs in
            decline_answer msg r.0 (record w { txs = r.1 }))

    unfoldable pub view_answer : MultisigMsg → Viewed → World → Option (Outcome World)
    unfolding reply_to
    view_answer msg (viewed (ok _)) w =
        some
          (tell_contract msg msg_view (codes "viewed") (find_multisig c msg.invite_code w.users) w)
    view_answer msg (viewed not_found) w =
        some (refuse w (reply_to msg msg_view (text (codes "not viewed"))))
    view_answer msg (viewed (failed why)) w =
        some (refuse w (reply_to msg msg_view (text (codes "not viewed"))))
    view_answer msg already_seen w =
        some (refuse w (reply_to msg msg_view (text (codes "not viewed"))))
    view_answer msg panicked w = none

    unfoldable pub view : MultisigMsg → World → Option (Outcome World)
    view msg w =
        let r =
          view_transaction t msg.tx_id msg.address msg.currency_id msg.network_id e.now w.txs in
        view_answer msg r.0 (record w { txs = r.1 })

    abbrev pub bad_request : ℕ → Str
    bad_request kind =
        if kind == msg_join
        then codes "can't join multisig: bad request: "
        else if kind == msg_leave
        then codes "can't leave multisig: bad request: "
        else if kind == msg_decline
        then codes "can't decline from multisig: bad request: "
        else codes "can't kik from multisig: bad request: "

    -- A message whose payload was decoded.
    unfoldable pub dispatch : ℕ → MultisigMsg → World → Option (Outcome World)
    dispatch kind msg w =
        if kind == msg_join
        then some (on_users w (join c e msg w.users))
        else if kind == msg_leave
        then some (on_users w (leave c e msg w.users))
        else if kind == msg_kick
        then some (on_users w (kick c e msg w.users))
        else if kind == msg_delete
        then some (on_users w (delete c e msg w.users))
        else if kind == msg_check
        then some (check msg w)
        else if kind == msg_decline
        then some (decline msg w)
        else if kind == msg_view
        then view msg w
        else some (refuse w (make_err e [] (codes "wrong request message type: ") 0))

    abbrev pub is_known_kind : ℕ → Bool
    is_known_kind kind = elim (kind == 0) [ true ↦ false | false ↦ leb kind msg_decline ]

    -- `mapstructure.Decode` gives a message, filled as far as it got, and an error or none.
    unfoldable pub on_message : ℕ → MultisigMsg → Option Str → World → Option (Outcome World)
    on_message kind msg none w = dispatch kind msg w
    on_message kind msg (some why) w =
        if is_known_kind kind
        then some (refuse w (make_err e msg.user_id (bad_request kind ++ why) kind))
        else dispatch kind msg w

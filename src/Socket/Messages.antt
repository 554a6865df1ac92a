-- ===== src/Socket/Messages.antt =====
-- The messages of the socket, and what a handler makes: the state, what is broadcast, the reply.
use multy_back.Prelude.{ℕ, Bool, ◌&&◌, List, [], ◌++◌, Str, codes, str_eq}
use multy_back.Store.Schemas.{AddressExtended, Multisig, InviteCodeInfo}

pub data Payload : Type 0 where
  text : Str → Payload
  entity : Multisig → Payload
  extended : Multisig → Str → Payload
  info : InviteCodeInfo → Payload
  transaction : Str → Str → Payload

-- `WsMessage`, whose `From` and `Status` no handler sets.
pub record WsMessage : Type 0 where
  pub kind : ℕ
  pub to : Str
  pub date : ℕ
  pub payload : Payload

pub record MultisigMsg : Type 0 where
  pub user_id : Str
  pub address : Str
  pub invite_code : Str
  pub address_to_kick : Str
  pub wallet_index : ℕ
  pub currency_id : ℕ
  pub network_id : ℕ
  pub tx_id : Str

-- What a handler finds around it: the users online (the keys of `pool.users`), the time, and the
-- order in which the map of owners is ranged over.
pub record Scene : Type 0 where
  pub online : Str → Bool
  pub now : ℕ
  pub ranged : List AddressExtended → List AddressExtended

-- `BroadcastToAll(msgRecieve+":"+user, msg)`
pub record Sent : Type 0 where
  pub topic : Str
  pub message : WsMessage

pub record Outcome (S : Type 0) : Type 0 where
  pub state : S
  pub sent : List Sent
  pub reply : WsMessage

-- `makeErr`
unfoldable pub make_err : Scene → Str → Str → ℕ → WsMessage
make_err e id error kind = record { kind = kind; to = id; date = e.now; payload = text error }

unfoldable pub broadcast : Scene → ℕ → Str → Payload → Sent
broadcast e kind id payload = record {
  topic = codes "message:recieve:" ++ id;
  message = record { kind = kind; to = id; date = e.now; payload = payload };
}

abbrev pub done : Scene → ℕ → Str → WsMessage
done e kind id = record { kind = kind; to = id; date = e.now; payload = text (codes "ok") }

-- A handler that ends early, with nothing broadcast.
abbrev pub refuse : {S : Type 0} → S → WsMessage → Outcome S
refuse s reply = record { state = s; sent = []; reply = reply }

abbrev pub unknown_code : Str
unknown_code = codes "No such multisigs with this invite code"

-- The reply of `getMultisig` on an error.
unfoldable pub no_multisig : Scene → Str → ℕ → WsMessage
unfolding make_err
no_multisig e id kind = make_err e id (codes "can't join multisig: " ++ unknown_code) kind

-- The tests of the loops over the owners.
unfoldable pub at_address : Str → AddressExtended → Bool
at_address a owner = str_eq owner.address a

unfoldable pub is_creator_at : Str → AddressExtended → Bool
unfolding at_address
is_creator_at a owner = at_address a owner && owner.creator

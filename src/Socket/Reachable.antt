-- ===== src/Socket/Reachable.antt =====
-- The states that messages lead to, in any order and on any interleaving of clients.
use multy_back.Prelude.{ℕ, ◌≡◌, refl, Option, none, some, Str, arith, subst, sym}
use multy_back.Store.Schemas.{User, TransactionEth, Multisig}
use multy_back.Store.Collection.{Collection, Answer, ok, not_found, failed}
use multy_back.Store.Transactions.{
  decline_transaction, view_transaction, Viewed, viewed, already_seen, panicked,
}
use multy_back.Socket.Messages.{Scene, MultisigMsg, Outcome}
use multy_back.Socket.Handler.{
  World, check, tell_contract, decline_answer, decline, view_answer, view, dispatch, on_message,
}
use multy_back.Socket.Capped.{AllCapped}
use multy_back.Socket.Capped.Owners.{IsScene}
use multy_back.Socket.Capped.Handlers.{
  join-AllCapped, leave-AllCapped, kick-AllCapped, delete-AllCapped,
}

module _ (c : Collection User) (t : Collection TransactionEth) where
  -- A message that is handled to the end leads from one state to the next.
  pub data Step : World c t → World c t → Type 0 where
    receive :
        (e : Scene) (kind : ℕ) (msg : MultisigMsg) (err : Option Str) (w w' : World c t)
        (o : Outcome (World c t))
        → IsScene e
        → on_message c t e kind msg err w ≡ some o
        → w' ≡ o.state
        → Step w w'

  pub data Reach : World c t → World c t → Type 0 where
    stay : (w : World c t) → Reach w w
    next : (w w' w'' : World c t) → Reach w w' → Step w' w'' → Reach w w''

-- What holds of the state after a message, if there was no panic.
abbrev pub After : {S : Type 0} → (S → Type 0) → Option (Outcome S) → Type 0
After P none = Unit
After P (some o) = P o.state

module _ (c : Collection User) (t : Collection TransactionEth) (e : Scene) where
  tell_contract-users :
      (msg : MultisigMsg) (kind : ℕ) (word : Str) (o : Option Multisig) (w : World c t)
      → (tell_contract c t e msg kind word o w).state ≡ w
  unfolding tell_contract
  tell_contract-users msg kind word none w = refl
  tell_contract-users msg kind word (some m) w = refl

  module _ (P : c.State → Type 0) where
    decline_answer-users :
        (msg : MultisigMsg) (a : Answer (Unit {0})) (w : World c t)
        → P w.users
        → P (decline_answer c t e msg a w).state.users
    unfolding decline_answer
    decline_answer-users msg (ok u) w h = rw (tell_contract-users msg _ _ _ w) h
    decline_answer-users msg not_found w h = h
    decline_answer-users msg (failed why) w h = h

    decline-users :
        (msg : MultisigMsg) (w : World c t) → P w.users → P (decline c t e msg w).state.users
    unfolding decline
    decline-users msg w h =
        let r = decline_transaction t msg.tx_id msg.address msg.currency_id msg.network_id w.txs in
        ground (arith, decline_answer-users msg r.0 (record w { txs = r.1 }) h)

    view_answer-users :
        (msg : MultisigMsg) (v : Viewed) (w : World c t)
        → P w.users
        → After (λ (x : World c t). P x.users) (view_answer c t e msg v w)
    unfolding view_answer
    view_answer-users msg (viewed (ok u)) w h = rw (tell_contract-users msg _ _ _ w) h
    view_answer-users msg (viewed not_found) w h = h
    view_answer-users msg (viewed (failed why)) w h = h
    view_answer-users msg already_seen w h = h
    view_answer-users msg panicked w h = tt

module _ (cap : Str → ℕ) (c : Collection User) (t : Collection TransactionEth) where
  abbrev IsGood : World c t → Type 0
  IsGood w = AllCapped cap c w.users

  dispatch-IsGood :
      (e : Scene) (kind : ℕ) (msg : MultisigMsg) (w : World c t)
      → IsScene e
      → IsGood w
      → After IsGood (dispatch c t e kind msg w)
  unfolding dispatch check view
  dispatch-IsGood e kind msg w once all =
      let r = view_transaction t msg.tx_id msg.address msg.currency_id msg.network_id e.now w.txs in
      ground (
        arith,
        join-AllCapped cap c e once msg w.users all,
        leave-AllCapped cap c e once msg w.users all,
        kick-AllCapped cap c e once msg w.users all,
        delete-AllCapped cap c e once msg w.users all,
        decline-users c t e (AllCapped cap c) msg w all,
        view_answer-users c t e (AllCapped cap c) msg r.0 (record w { txs = r.1 }) all,
      )

  on_message-IsGood :
      (e : Scene) (kind : ℕ) (msg : MultisigMsg) (err : Option Str) (w : World c t)
      → IsScene e
      → IsGood w
      → After IsGood (on_message c t e kind msg err w)
  unfolding on_message
  on_message-IsGood e kind msg none w once all = dispatch-IsGood e kind msg w once all
  on_message-IsGood e kind msg (some why) w once all =
      ground (arith, dispatch-IsGood e kind msg w once all)

  Step-IsGood : {w w' : World c t} → Step c t w w' → IsGood w → IsGood w'
  Step-IsGood (receive e kind msg err w w' o once sent to) all =
      subst IsGood (sym to)
        (subst (After IsGood) sent (on_message-IsGood e kind msg err w once all))

  -- If at the start no multisig has more owners than it is for, and the multisigs of one invite code
  -- agree on that number, this holds after every sequence of messages: joins, departures,
  -- expulsions, deletions, views and refusals of payments, also where writes or reads fail.
  pub Reach-AllCapped :
      (w w' : World c t) → Reach c t w w' → AllCapped cap c w.users → AllCapped cap c w'.users
  Reach-AllCapped w w' (stay w₀) all = all
  Reach-AllCapped w w' (next w₀ w₁ w₂ before step) all =
      Step-IsGood step (Reach-AllCapped w₀ w₁ before all)

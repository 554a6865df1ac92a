-- ===== src/Exchanger/Handlers.antt =====
-- client/rest-exchangers.go: the three handlers, with the factory of the client as their state. The
-- decoding of a body is a parameter. A panic in a handler is answered by the router, and what the
-- factory holds by then stays.
use multy_back.Prelude.{Option, none, some, List, Str, codes}
use multy_back.Exchanger.{GoResult, returned, panicked, after, Factory, get_exchanger}
use multy_back.Exchanger.Changelly.{
  Outside, ExchangerChangelly, ExchangeTransaction, changelly, changelly_exchanger,
  get_supported_currencies, get_exchange_amount, create_transaction,
}

abbrev pub Exchangers : Type 0
Exchangers = Factory changelly_exchanger

-- 400 with a message, or 200 with what it carries.
pub data ExchangerReply (A : Type 0) : Type 0 where
  refused : Str → ExchangerReply A
  answer : A → ExchangerReply A

-- `RequestGetExchangeAmount`
pub record RequestGetExchangeAmount : Type 0 where
  pub source : Str
  pub target : Str
  pub amount : Str

-- `RequestCreateTransaction`
pub record RequestCreateTransaction : Type 0 where
  pub source : Str
  pub target : Str
  pub amount : Str
  pub address : Str

-- The fields of the last handler's answer.
pub record TransactionAnswer : Type 0 where
  pub transaction_id : Str
  pub pay_in_address : Str
  pub pay_out_address : Str

abbrev pub shown : ExchangeTransaction → TransactionAnswer
shown t = record {
  transaction_id = t.id;
  pay_in_address = t.pay_in_address;
  pay_out_address = t.pay_out_address;
}

abbrev pub answer_or : {A : Type 0} → Str → Option A → ExchangerReply A
answer_or message none = refused message
answer_or message (some a) = answer a

abbrev pub msg_err_header_error : Str
msg_err_header_error = codes "wrong authorization headers"

abbrev pub msg_err_request_body_error : Str
msg_err_request_body_error = codes "missing request body params"

abbrev pub msg_err_server_error : Str
msg_err_server_error = codes "internal server error"

-- What a handler does with the exchanger of Changelly that it asks the factory for.
unfoldable pub with_changelly :
    {A : Type 0} → (ExchangerChangelly → GoResult A) → Exchangers → GoResult A × Exchangers
with_changelly serve f = elim (get_exchanger changelly_exchanger changelly f) [
  | returned (ec, f') ↦ (serve ec, f')
  | panicked ↦ (panicked, f)
]

unfoldable pub shown_or_refused : Option ExchangeTransaction → ExchangerReply TransactionAnswer
shown_or_refused none = refused msg_err_server_error
shown_or_refused (some t) = answer (shown t)

module _ (out : Outside) where
  unfoldable pub get_exchanger_supported_currencies :
      Exchangers → GoResult (ExchangerReply (List Str)) × Exchangers
  unfolding with_changelly
  get_exchanger_supported_currencies = with_changelly (λ ec.
      after (get_supported_currencies out ec)
        (λ names. returned (answer_or msg_err_header_error names)))

  unfoldable pub get_exchanger_amount_exchange :
      Option RequestGetExchangeAmount → Exchangers → GoResult (ExchangerReply Str) × Exchangers
  unfolding with_changelly
  get_exchanger_amount_exchange none f = (returned (refused msg_err_request_body_error), f)
  get_exchanger_amount_exchange (some r) f =
      with_changelly
        (λ ec.
          returned (
            answer_or msg_err_server_error (get_exchange_amount out r.source r.target r.amount ec)))
        f

  unfoldable pub create_exchanger_transaction :
      Option RequestCreateTransaction
      → Exchangers
      → GoResult (ExchangerReply TransactionAnswer) × Exchangers
  unfolding with_changelly shown_or_refused
  create_exchanger_transaction none f = (returned (refused msg_err_request_body_error), f)
  create_exchanger_transaction (some r) f =
      with_changelly
        (λ ec.
          after (create_transaction out r.source r.target r.amount r.address ec)
            (λ t. returned (shown_or_refused t)))
        f

-- ===== src/Exchanger/Changelly.antt =====
-- exchanger/changelly_api.go: the client of Changelly. The encoding of JSON, the signature and the
-- network are parameters.
use multy_back.Prelude.{
  ℕ, ◌≡◌, Option, none, some, List, [], ◌∷◌, Str, codes, if◌then◌else◌, ◌==◌, ◌>>=◌, arith, Bool,
}
use multy_back.Exchanger.Values.{
  Value, Values, nil, text, scalar, array, object, no_values, value_and,
}
use multy_back.Exchanger.{GoResult, returned, panicked, after, ExchangerInterface}

abbrev pub changelly : Str
changelly = codes "changelly"

-- `InitConfig`
pub record InitConfig : Type 0 where
  pub api_url : Str
  pub api_key : Str
  pub api_secret : Str

-- `ExchangerChangelly`
pub record ExchangerChangelly : Type 0 where
  pub name : Str
  pub config : InitConfig

abbrev pub new_changelly : ExchangerChangelly
new_changelly = record {
  name = [];
  config = record { api_url = []; api_key = []; api_secret = [] };
}

-- `v.(string)` and `v.(map[string]interface{})`
unfoldable pub as_text : Value → GoResult Str
as_text (text s) = returned s
as_text nil = panicked
as_text scalar = panicked
as_text (array vs) = panicked
as_text (object fields) = panicked

unfoldable pub as_object : Value → GoResult (Str → Value)
as_object (object fields) = returned fields
as_object nil = panicked
as_object scalar = panicked
as_object (text s) = panicked
as_object (array vs) = panicked

unfoldable pub as_array : Value → GoResult Values
as_array (array vs) = returned vs
as_array nil = panicked
as_array scalar = panicked
as_array (text s) = panicked
as_array (object fields) = panicked

unfoldable pub init_changelly : Value → ExchangerChangelly → GoResult ExchangerChangelly
unfolding as_text as_object
init_changelly v ec = after (as_object v) (λ fields.
    after (as_text (fields (codes "apiUrl"))) (λ url.
      after (as_text (fields (codes "apiKey"))) (λ key.
        after (as_text (fields (codes "apiSecret"))) (λ secret. returned (record {
          name = changelly;
          config = record { api_url = url; api_key = key; api_secret = secret };
        })))))

-- `rpcPacket`
pub record RpcPacket : Type 0 where
  pub id : Str
  pub jsonrpc : Str
  pub method : Str
  pub params : List (Str × Str)

-- `rpcPacketResponse`, of which the error is the code and the message.
pub record RpcPacketResponse : Type 0 where
  pub result : Value
  pub error_code : ℕ
  pub error_message : Str

-- The HTTP request with its headers, a POST.
pub record HttpRequest : Type 0 where
  pub url : Str
  pub api_key : Str
  pub sign : Str
  pub content_type : Str
  pub body : Str

-- `json.Marshal`, `json.Unmarshal`, the HMAC in hexadecimal digits of a text under a secret, the test
-- that `http.NewRequest` takes a URL, and the exchange of a request for the body of its answer.
pub record Outside : Type 0 where
  pub marshal : RpcPacket → Option Str
  pub unmarshal : Str → Option RpcPacketResponse
  pub hmac_hex : Str → Str → Str
  pub takes_url : Str → Bool
  pub send : HttpRequest → Option Str

-- `ExchangeTransaction`
pub record ExchangeTransaction : Type 0 where
  pub id : Str
  pub pay_in_address : Str
  pub pay_out_address : Str
  pub error : Option (ℕ × Str)

abbrev pub no_transaction : ExchangeTransaction
no_transaction = record { id = []; pay_in_address = []; pay_out_address = []; error = none }

unfoldable pub transaction_of : RpcPacketResponse → GoResult ExchangeTransaction
unfolding as_object as_text
transaction_of r =
    if r.error_code == 0
    then after (as_object r.result) (λ fields. after (as_text (fields (codes "id"))) (λ id.
      after (as_text (fields (codes "payinAddress"))) (λ pay_in.
        after (as_text (fields (codes "payoutAddress"))) (λ pay_out.
          returned (record {
            id = id;
            pay_in_address = pay_in;
            pay_out_address = pay_out;
            error = none;
          })))))
    else returned (record no_transaction { error = some (r.error_code, r.error_message) })

-- The loop of `GetSupportedCurrencies`.
unfoldable pub currency_names : Values → GoResult (List Str)
unfolding as_text
currency_names no_values = returned []
currency_names (value_and v vs) =
    after (as_text v) (λ name. after (currency_names vs) (λ names. returned (name ∷ names)))

-- An assertion with its second result dropped.
unfoldable pub text_or_empty : Value → Str
text_or_empty (text s) = s
text_or_empty nil = []
text_or_empty scalar = []
text_or_empty (array vs) = []
text_or_empty (object fields) = []

abbrev pub packet_of : Str → List (Str × Str) → RpcPacket
packet_of method params = record {
  id = codes "1";
  jsonrpc = codes "2.0";
  method = method;
  params = params;
}

abbrev pub amount_params : Str → Str → Str → List (Str × Str)
amount_params source target amount =
    (codes "from", source) ∷ (codes "to", target) ∷ (codes "amount", amount) ∷ []

abbrev pub transaction_params : Str → Str → Str → Str → List (Str × Str)
transaction_params source target amount address =
    (codes "from", source)
    ∷ (codes "to", target)
    ∷ (codes "amount", amount)
    ∷ (codes "address", address)
    ∷ []

unfoldable pub get_transaction_minimum_amount : Str → Str → ExchangerChangelly → Str
get_transaction_minimum_amount source target ec = codes "1.0"

module _ (out : Outside) where
  unfoldable pub get_request_hash : ExchangerChangelly → RpcPacket → Option Str
  get_request_hash ec packet = elim (out.marshal packet) [
    | none ↦ none
    | some bytes ↦ some (out.hmac_hex ec.config.api_secret bytes)
  ]

  -- The request that goes out, if one does.
  unfoldable pub signed_request : RpcPacket → ExchangerChangelly → Option HttpRequest
  unfolding get_request_hash
  signed_request packet ec = do
    hash ← get_request_hash ec packet
    body ← out.marshal packet
    if out.takes_url ec.config.api_url
        then some (record {
          url = ec.config.api_url;
          api_key = ec.config.api_key;
          sign = hash;
          content_type = codes "application/json";
          body = body;
        })
        else none

  -- The body of the answer; nothing where an error comes back.
  unfoldable pub send_request : Str → List (Str × Str) → ExchangerChangelly → Option Str
  unfolding signed_request
  send_request method params ec = do
    request ← signed_request (packet_of method params) ec
    out.send request

  -- `none` inside the outcome is an error.
  unfoldable pub get_supported_currencies : ExchangerChangelly → GoResult (Option (List Str))
  unfolding send_request currency_names as_array
  get_supported_currencies ec =
      elim (send_request (codes "getCurrencies") [] ec >>= out.unmarshal) [
        | none ↦ returned none
        | some r ↦
            after (as_array r.result)
              (λ vs. after (currency_names vs) (λ names. returned (some names)))
      ]

  -- The error of the request is dropped, that of the decoding is not.
  unfoldable pub get_exchange_amount : Str → Str → Str → ExchangerChangelly → Option Str
  unfolding send_request text_or_empty
  get_exchange_amount source target amount ec =
      elim (send_request (codes "getExchangeAmount") (amount_params source target amount) ec) [
        | none ↦ some []
        | some bytes ↦ elim (out.unmarshal bytes) [
          | none ↦ none
          | some r ↦ some (text_or_empty r.result)
        ]
      ]

  unfoldable pub create_transaction :
      Str → Str → Str → Str → ExchangerChangelly → GoResult (Option ExchangeTransaction)
  unfolding send_request transaction_of
  create_transaction source target amount address ec =
      elim (send_request (codes "createTransaction")
        (transaction_params source target amount address) ec) [
          | none ↦ returned (some no_transaction)
          | some bytes ↦ elim (out.unmarshal bytes) [
            | none ↦ returned none
            | some r ↦ after (transaction_of r) (λ t. returned (some t))
          ]
        ]

pub init_changelly-name :
    (v : Value) (o o' : ExchangerChangelly) → init_changelly v o ≡ returned o' → o'.name ≡ changelly
unfolding init_changelly as_object as_text
init_changelly-name v o o' e = ground arith

abbrev pub changelly_exchanger : ExchangerInterface
changelly_exchanger = record {
  Object = ExchangerChangelly;
  canonical_name = changelly;
  fresh = new_changelly;
  init = init_changelly;
  get_name = λ o. o.name;
  init_named = init_changelly-name;
}

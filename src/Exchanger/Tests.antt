-- ===== src/Exchanger/Tests.antt =====
-- Runs of the exchangers on a configuration and an outside that are written down here.
use multy_back.Prelude.{
  ◌↔◌, ◌≡◌, refl, ◌≢◌, true, none, some, List, [], ◌∷◌, Str, codes, str_eq, if◌then◌else◌, arith,
  ◌++◌,
}
use multy_back.Exchanger.Values.{Value, nil, text, object}
use multy_back.Exchanger.{
  returned, panicked, BasicExchangeConfiguration, get_exchanger, set_exchangers_config,
}
use multy_back.Exchanger.Changelly.{
  Outside, RpcPacket, RpcPacketResponse, HttpRequest, ExchangerChangelly, changelly,
  changelly_exchanger, signed_request, packet_of, init_changelly, send_request, get_exchange_amount,
  transaction_params,
}
use multy_back.Exchanger.Handlers.{
  Exchangers, RequestCreateTransaction, answer, create_exchanger_transaction,
  get_exchanger_amount_exchange,
}
use multy_back.Exchanger.Kept.{Reach, stay, next, configured, Reach-get_exchanger, asked}
use multy_back.Exchanger.Answers.{Shows, create_exchanger_transaction-Shows, nothing_shown}

abbrev fields : Str → Value
fields key = if str_eq key (codes "apiUrl") then text (codes "url") else text (codes "key")

abbrev configs : List BasicExchangeConfiguration
configs = record { name = changelly; is_active = true; config = object fields } ∷ []

abbrev at_first : Exchangers
at_first = record { exchangers = []; configs = configs }

abbrev client : ExchangerChangelly
client = record {
  name = changelly;
  config = record { api_url = codes "url"; api_key = codes "key"; api_secret = codes "key" };
}

abbrev with_client : Exchangers
with_client = record { exchangers = client ∷ []; configs = configs }

abbrev later : Exchangers
later = record { exchangers = client ∷ []; configs = [] }

abbrev refusal : RpcPacketResponse
refusal = record { result = nil; error_code = 7; error_message = [] }

abbrev outside : Outside
outside = record {
  marshal = λ p. some p.method;
  unmarshal = λ bytes. some refusal;
  hmac_hex = λ secret bytes. secret ++ bytes;
  takes_url = λ url. true;
  send = λ r. some r.body;
}

made : get_exchanger changelly_exchanger changelly at_first ≡ returned (client, with_client)
unfolding get_exchanger init_changelly str_eq
made = refl

-- Without a configuration the assertion on nil panics, and an unknown name is a nil pointer.
no_config :
    get_exchanger changelly_exchanger changelly (record { exchangers = []; configs = [] })
    ≡ panicked
unfolding get_exchanger init_changelly str_eq
no_config = refl

unknown_name : get_exchanger changelly_exchanger (codes "other") with_client ≡ panicked
unfolding get_exchanger str_eq
unknown_name = refl

reached : Reach changelly_exchanger with_client later
unfolding set_exchangers_config
reached = next stay (configured [])

reached_from_nothing : Reach changelly_exchanger at_first later
unfolding set_exchangers_config
reached_from_nothing = next (next stay (asked changelly client made)) (configured [])

Reach-get_exchanger_example :
    get_exchanger changelly_exchanger changelly later ≡ returned (client, later)
Reach-get_exchanger_example =
    Reach-get_exchanger changelly_exchanger changelly client at_first with_client made later reached

abbrev request : RequestCreateTransaction
request = record {
  source = codes "btc";
  target = codes "eth";
  amount = codes "1";
  address = codes "0x";
}

abbrev ping : RpcPacket
ping = packet_of (codes "getCurrencies") []

abbrev sent : HttpRequest
sent = record {
  url = codes "url";
  api_key = codes "key";
  sign = codes "keygetCurrencies";
  content_type = codes "application/json";
  body = codes "getCurrencies";
}

signed : signed_request outside ping client ≡ some sent
unfolding signed_request
signed = refl

seven : refusal.error_code ≢ 0
seven e = absurd (omega (arith, e))

body_sent :
    send_request outside
      (codes "createTransaction")
      (transaction_params request.source request.target request.amount request.address)
      client
    ≡ some (codes "createTransaction")
unfolding send_request
body_sent = refl

create_exchanger_transaction-Shows_example :
    (create_exchanger_transaction outside (some request) at_first
      ≡ (returned (answer nothing_shown), with_client))
    ↔ Shows outside request client nothing_shown
create_exchanger_transaction-Shows_example =
    create_exchanger_transaction-Shows outside request at_first with_client client nothing_shown
      made

-- No answer is an empty amount, with 200.
silent_amount :
    get_exchanger_amount_exchange
      (record outside { send = λ r. none })
      (some (record { source = []; target = []; amount = [] }))
      with_client
    ≡ (returned (answer []), with_client)
unfolding get_exchanger_amount_exchange get_exchanger get_exchange_amount str_eq
silent_amount = refl

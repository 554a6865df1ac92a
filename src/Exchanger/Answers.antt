-- ===== src/Exchanger/Answers.antt =====
-- The requests to Changelly and what the handlers make of its answers.
use multy_back.Prelude.{
  ◌≡◌, ◌≢◌, refl, inl, inr, none, some, Option-cases, Bool-cases, Option, ◌==◌, ◌↔◌, ◌∙◌, ap, sym,
  subst, [], Str, codes, arith, ◌⊎◌,
}
use multy_back.Exchanger.Values.{Value, nil, text, scalar, array, object}
use multy_back.Exchanger.{GoResult, returned, panicked, after, get_exchanger}
use multy_back.Exchanger.Changelly.{
  Outside, RpcPacket, RpcPacketResponse, HttpRequest, ExchangerChangelly, ExchangeTransaction,
  get_request_hash, signed_request, changelly, changelly_exchanger, send_request, as_text,
  as_object, create_transaction, transaction_of, transaction_params, no_transaction,
}
use multy_back.Exchanger.Handlers.{
  shown, Exchangers, RequestCreateTransaction, TransactionAnswer, answer,
  create_exchanger_transaction, with_changelly, shown_or_refused,
}

with_changelly_given :
    {A : Type 0} (serve : ExchangerChangelly → GoResult A) (f f' : Exchangers)
    (ec : ExchangerChangelly)
    → get_exchanger changelly_exchanger changelly f ≡ returned (ec, f')
    → with_changelly serve f ≡ (serve ec, f')
unfolding with_changelly
with_changelly_given serve f f' ec given = ground (arith, given)

abbrev pub nothing_shown : TransactionAnswer
nothing_shown = record { transaction_id = []; pay_in_address = []; pay_out_address = [] }

after-returned {ℓ κ} :
    {A : Type ℓ} {B : Type κ} (r : GoResult A) (g : A → GoResult B) (b : B)
    → after r g ≡ returned b
    → (a : A) × (r ≡ returned a) × (g a ≡ returned b)
after-returned (returned a) g b e = (a, refl, e)
after-returned panicked g b e = absurd (cc)

as_text-text : (v : Value) (s : Str) → as_text v ≡ returned s → v ≡ text s
unfolding as_text
as_text-text (text s') s e = cc
as_text-text nil s e = absurd (cc)
as_text-text scalar s e = absurd (cc)
as_text-text (array vs) s e = absurd (cc)
as_text-text (object fields) s e = absurd (cc)

as_object-object :
    (v : Value) (fields : Str → Value) → as_object v ≡ returned fields → v ≡ object fields
unfolding as_object
as_object-object (object fields') fields e = cc
as_object-object nil fields e = absurd (cc)
as_object-object scalar fields e = absurd (cc)
as_object-object (array vs) fields e = absurd (cc)
as_object-object (text s) fields e = absurd (cc)

-- A packet without an error whose result has the three fields of a transaction.
abbrev pub IsTransaction : RpcPacketResponse → TransactionAnswer → Type 0
IsTransaction p t =
    (p.error_code ≡ 0)
    × ((fields : Str → Value) × (p.result ≡ object fields)
        × (fields (codes "id") ≡ text t.transaction_id)
        × (fields (codes "payinAddress") ≡ text t.pay_in_address)
        × (fields (codes "payoutAddress") ≡ text t.pay_out_address))

granted_of :
    (p : RpcPacketResponse) (x : ExchangeTransaction)
    → p.error_code ≡ 0
    → after (as_object p.result) (λ fields. after (as_text (fields (codes "id"))) (λ id.
      after (as_text (fields (codes "payinAddress"))) (λ pay_in.
        after (as_text (fields (codes "payoutAddress"))) (λ pay_out.
          returned (record {
            id = id;
            pay_in_address = pay_in;
            pay_out_address = pay_out;
            error = none;
          })))))
      ≡ returned x
    → IsTransaction p (shown x)
granted_of p x right e =
    let (fields, has_fields, e₁) = after-returned (as_object p.result) _ x e in
    let (id, has_id, e₂) = after-returned (as_text (fields (codes "id"))) _ x e₁ in
    let (pay_in, has_in, e₃) = after-returned (as_text (fields (codes "payinAddress"))) _ x e₂ in
    let (pay_out, has_out, e₄) = after-returned (as_text (fields (codes "payoutAddress"))) _ x e₃ in
    (
      right,
      (
        fields,
        as_object-object p.result fields has_fields,
        cc (as_text-text (fields (codes "id")) id has_id, e₄),
        cc (as_text-text (fields (codes "payinAddress")) pay_in has_in, e₄),
        cc (as_text-text (fields (codes "payoutAddress")) pay_out has_out, e₄),
      ),
    )

transaction_of-returned :
    (p : RpcPacketResponse) (x : ExchangeTransaction)
    → transaction_of p ≡ returned x
    → ((p.error_code ≢ 0) × (shown x ≡ nothing_shown)) ⊎ IsTransaction p (shown x)
unfolding transaction_of
transaction_of-returned p x e = elim (Bool-cases (p.error_code == 0)) [
  | inr wrong ↦ inl ((λ z. ground (arith, wrong)), cc (rw wrong at e))
  | inl right ↦ inr (granted_of p x (ground (arith, right)) (rw right at e))
]

module _ (out : Outside) where
  -- A request that goes out carries the packet's encoding as its body, and as its signature that of
  -- this very body under the secret of the exchanger, with the exchanger's key and address.
  pub signed_request-sign :
      (packet : RpcPacket) (ec : ExchangerChangelly) (r : HttpRequest)
      → signed_request out packet ec ≡ some r
      → (out.marshal packet ≡ some r.body)
        × (r.sign ≡ out.hmac_hex ec.config.api_secret r.body)
        × (r.api_key ≡ ec.config.api_key)
        × (r.url ≡ ec.config.api_url)
  unfolding signed_request get_request_hash
  signed_request-sign packet ec r e = elim (Option-cases (out.marshal packet)) [
    | inl nothing ↦ absurd (cc (nothing, e))
    | inr (bytes, read) ↦ ground (arith, read)
  ]

  -- What comes of a request for a transaction that Changelly does not grant: no body, or one that
  -- decodes to an error.
  abbrev pub IsUngranted : RequestCreateTransaction → ExchangerChangelly → Type 0
  IsUngranted r ec =
      let sent =
        send_request out (codes "createTransaction")
          (transaction_params r.source r.target r.amount r.address) ec in
      (sent ≡ none)
      ⊎ ((bytes : Str) × (p : RpcPacketResponse) × (sent ≡ some bytes)
          × (out.unmarshal bytes ≡ some p)
          × (p.error_code ≢ 0))

  -- What comes of one that it grants: a body that decodes to a transaction.
  abbrev pub IsGranted : RequestCreateTransaction → ExchangerChangelly → TransactionAnswer → Type 0
  IsGranted r ec t =
      (bytes : Str) × (p : RpcPacketResponse) × (send_request out (codes "createTransaction")
          (transaction_params r.source r.target r.amount r.address) ec
        ≡ some bytes)
      × (out.unmarshal bytes ≡ some p)
      × IsTransaction p t

  abbrev pub Shows : RequestCreateTransaction → ExchangerChangelly → TransactionAnswer → Type 0
  Shows r ec t = (IsUngranted r ec × (t ≡ nothing_shown)) ⊎ IsGranted r ec t

  created-Shows :
      (r : RequestCreateTransaction) (ec : ExchangerChangelly) (x : ExchangeTransaction)
      → create_transaction out r.source r.target r.amount r.address ec ≡ returned (some x)
      → Shows r ec (shown x)
  unfolding create_transaction
  created-Shows r ec x e = elim (Option-cases sent) [
    | inl silent ↦ inl (inl silent, cc (silent, e))
    | inr (bytes, answered) ↦ elim (Option-cases (out.unmarshal bytes)) [
      | inl garbled ↦ absurd (cc (answered, garbled, e))
      | inr (p, read) ↦
          let (x', made, same) =
            after-returned (transaction_of p) (λ t. returned (some t)) (some x)
              (rw (answered, read, create_transaction) at e) in
          let here : x' ≡ x = cc same in
          elim (transaction_of-returned p x (made ∙ ap returned here)) [
            | inl (wrong, nothing) ↦ inl (inr (bytes, p, answered, read, wrong), nothing)
            | inr granted ↦ inr (bytes, p, answered, read, granted)
          ]
    ]
  ]
    where
      sent : Option Str
      sent =
          send_request out (codes "createTransaction")
            (transaction_params r.source r.target r.amount r.address) ec

  Shows-created :
      (r : RequestCreateTransaction) (ec : ExchangerChangelly) (t : TransactionAnswer)
      → Shows r ec t
      → (x : ExchangeTransaction) × (create_transaction out r.source r.target r.amount r.address ec
          ≡ returned (some x))
        × (shown x ≡ t)
  unfolding create_transaction transaction_of as_object as_text
  Shows-created r ec t (inl (inl silent, nothing)) =
      (no_transaction, rw (silent, create_transaction) refl, sym nothing)
  Shows-created r ec t (inl (inr (bytes, p, sent, read, wrong), nothing)) = (
    record no_transaction { error = some (p.error_code, p.error_message) },
    rw (sent, read, create_transaction) (ground (arith, wrong)),
    sym nothing,
  )
  Shows-created r ec t (inr (bytes, p, sent, read, (right, (fields, has, id, pay_in, pay_out)))) = (
    record {
      id = t.transaction_id;
      pay_in_address = t.pay_in_address;
      pay_out_address = t.pay_out_address;
      error = none;
    },
    rw (sent, read, create_transaction)
        (rw (transaction_of, right) (rw (has, id, pay_in, pay_out) refl)),
    refl,
  )

  -- The handler answers 200 with the fields of a transaction exactly where Changelly grants it and has
  -- sent these, and, with an empty id and empty addresses, where no body comes back or one that decodes
  -- to an error.
  pub create_exchanger_transaction-Shows :
      (r : RequestCreateTransaction) (f f' : Exchangers) (ec : ExchangerChangelly)
      (t : TransactionAnswer)
      → get_exchanger changelly_exchanger changelly f ≡ returned (ec, f')
      → (create_exchanger_transaction out (some r) f ≡ (returned (answer t), f')) ↔ Shows r ec t
  unfolding create_exchanger_transaction shown_or_refused
  create_exchanger_transaction-Shows r f f' ec t given = (only, always)
    where
      made : GoResult (Option ExchangeTransaction)
      made = create_transaction out r.source r.target r.amount r.address ec

      runs :
          create_exchanger_transaction out (some r) f
          ≡ (after made (λ x. returned (shown_or_refused x)), f')
      runs =
          with_changelly_given
            (λ e.
              after (create_transaction out r.source r.target r.amount r.address e)
                (λ x. returned (shown_or_refused x)))
            f f' ec given

      by_made :
          (o : Option ExchangeTransaction)
          → made ≡ returned o
          → returned (shown_or_refused o) ≡ returned (answer t)
          → Shows r ec t
      by_made none e same = absurd (cc same)
      by_made (some x) e same = subst (Shows r ec) (cc same) (created-Shows r ec x e)

      only : create_exchanger_transaction out (some r) f ≡ (returned (answer t), f') → Shows r ec t
      only e =
          let (o, here, same) =
            after-returned made (λ x. returned (shown_or_refused x)) (answer t)
              (ap (λ a. a.0) (sym runs ∙ e)) in
          by_made o here same

      always :
          Shows r ec t → create_exchanger_transaction out (some r) f ≡ (returned (answer t), f')
      always h =
          let (x, e, same) = Shows-created r ec t h in
          runs
          ∙ ap (λ a. (after a (λ y. returned (shown_or_refused y)), f')) e
          ∙ ap (λ s. (returned (answer s), f')) same

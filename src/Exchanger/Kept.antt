-- ===== src/Exchanger/Kept.antt =====
-- An exchanger, once it is made, is the one that every later request gets.
use multy_back.Prelude.{
  find-append_found, find-append_none, ◌≡◌, refl, Bool-cases, Option, none, some, List, [], ◌∷◌,
  ◌++◌, Str, str_eq, str_eq_iff, str_eq_refl, ap, sym, ◌∙◌, ◌⊎◌, arith, find, inl, inr,
}
use multy_back.Exchanger.Values.{Value}
use multy_back.Exchanger.{
  GoResult, returned, panicked, after, ExchangerInterface, BasicExchangeConfiguration, Factory,
  set_exchangers_config, exchanger_found, get_exchanger, new_exchanger,
  get_config_by_exchanger_name,
}

module _ (i : ExchangerInterface) where
  -- What happens to the factory: a request that is answered, and a new configuration.
  pub data Step : Factory i → Factory i → Type 0 where
    asked :
        (name : Str) {f f' : Factory i} (o : i.Object)
        → get_exchanger i name f ≡ returned (o, f')
        → Step f f'
    configured :
        (configs : List BasicExchangeConfiguration) {f : Factory i}
        → Step f (set_exchangers_config i configs f)

  pub data Reach (f : Factory i) : Factory i → Type 0 where
    stay : Reach f f
    next : {f' f'' : Factory i} → Reach f f' → Step f' f'' → Reach f f''

  abbrev pub held : Str → Factory i → Option i.Object
  held name f = find (λ o. str_eq (i.get_name o) name) f.exchangers

  abbrev pub with_new : i.Object → Factory i → Factory i
  with_new o f = record f { exchangers = f.exchangers ++ o ∷ [] }

  -- Where the answer of a request comes from.
  abbrev pub Source : Str → Option i.Object → Factory i → i.Object → Factory i → Type 0
  Source name h f o f' =
      ((h ≡ some o) × (f' ≡ f))
      ⊎ ((h ≡ none)
          × (name ≡ i.canonical_name)
          × (i.get_name o ≡ i.canonical_name)
          × (f' ≡ with_new o f))

  made-name :
      (v : Value) (r : GoResult i.Object) (f f' : Factory i) (o : i.Object)
      → i.init v i.fresh ≡ r
      → after {B = i.Object × Factory i} r (λ x. returned (x, with_new x f)) ≡ returned (o, f')
      → (i.get_name o ≡ i.canonical_name) × (f' ≡ with_new o f)
  made-name v panicked f f' o made e = absurd (cc)
  made-name v (returned x) f f' o made e = (cc (i.init_named v i.fresh x made), cc)

  exchanger_found-Source :
      (name : Str) (h : Option i.Object) (f f' : Factory i) (o : i.Object)
      → exchanger_found i name h f ≡ returned (o, f')
      → Source name h f o f'
  unfolding exchanger_found new_exchanger
  exchanger_found-Source name (some x) f f' o e = inl (ground arith)
  exchanger_found-Source name none f f' o e = elim (Bool-cases (str_eq name i.canonical_name)) [
    | inr other ↦ absurd (ground (arith, other))
    | inl same ↦
        let config = get_config_by_exchanger_name name f.configs in
        let known = made-name config (i.init config i.fresh) f f' o refl (ground (arith, same)) in
        inr (refl, (str_eq_iff name i.canonical_name).0 same, known.0, known.1)
  ]

  -- An exchanger that is held stays the one of its name, whatever happens to the factory.
  Step-held :
      (name : Str) (a : i.Object) {f f' : Factory i}
      → Step f f'
      → held name f ≡ some a
      → held name f' ≡ some a
  unfolding set_exchangers_config get_exchanger
  Step-held name a (configured configs) k = k
  Step-held name a {f} {f'} (asked other o e) k =
      elim (exchanger_found-Source other (held other f) f f' o e) [
        | inl (old, same) ↦ rw same k
        | inr (new, canonical, named, grown) ↦
            rw grown (find-append_found (λ x. str_eq (i.get_name x) name) f.exchangers (o ∷ []) a k)
      ]

  Reach-held :
      (name : Str) (a : i.Object) {f f' : Factory i}
      → Reach f f'
      → held name f ≡ some a
      → held name f' ≡ some a
  Reach-held name a stay k = k
  Reach-held name a (next r st) k = Step-held name a st (Reach-held name a r k)

  -- The answer of a request is held under the name that was asked for.
  answer-held :
      (name : Str) (o : i.Object) (f f' : Factory i)
      → get_exchanger i name f ≡ returned (o, f')
      → held name f' ≡ some o
  unfolding get_exchanger
  answer-held name o f f' e = elim (exchanger_found-Source name (held name f) f f' o e) [
    | inl (old, same) ↦ rw same old
    | inr (new, canonical, named, grown) ↦
        rw (grown, find-append_none (λ x. str_eq (i.get_name x) name) f.exchangers (o ∷ []) new)
          (ground (arith, str_eq_refl name))
  ]

  -- An exchanger that the factory has given for a name is what it gives for it ever after, and it gives
  -- it without a change of its own, whatever is asked for or configured in between.
  pub Reach-get_exchanger :
      (name : Str) (o : i.Object) (f f' : Factory i)
      → get_exchanger i name f ≡ returned (o, f')
      → (g : Factory i) → Reach f' g
      → get_exchanger i name g ≡ returned (o, g)
  unfolding get_exchanger exchanger_found
  Reach-get_exchanger name o f f' e g r = rw (Reach-held name o r (answer-held name o f f' e)) refl

  -- A factory without exchangers never has two, and the one is named as it should be.
  abbrev pub IsSingle : Factory i → Type 0
  IsSingle f =
      (f.exchangers ≡ [])
      ⊎ ((o : i.Object) × (f.exchangers ≡ o ∷ []) × (i.get_name o ≡ i.canonical_name))

  Step-IsSingle : {f f' : Factory i} → Step f f' → IsSingle f → IsSingle f'
  unfolding set_exchangers_config get_exchanger
  Step-IsSingle (configured configs) h = h
  Step-IsSingle {f} {f'} (asked name o e) h =
      elim (exchanger_found-Source name (held name f) f f' o e) [
        | inl (old, same) ↦ rw same h
        | inr (new, canonical, named, grown) ↦ elim h [
          | inl empty ↦ rw grown (inr (o, ap (λ os. os ++ o ∷ []) empty, named))
          | inr (x, single, same) ↦
              let found = (str_eq_iff (i.get_name x) name).1 (same ∙ sym canonical) in
              absurd (
                ground
                  (arith, found, ap (find (λ y. str_eq (i.get_name y) name)) (sym single) ∙ new))
        ]
      ]

  -- However often it is asked and configured, a factory that starts with no exchanger has at most one,
  -- and that one has the canonical name.
  pub Reach-IsSingle : (f f' : Factory i) → f.exchangers ≡ [] → Reach f f' → IsSingle f'
  Reach-IsSingle f f' h stay = inl h
  Reach-IsSingle f f' h (next {f' = m} r st) = Step-IsSingle st (Reach-IsSingle f m h r)

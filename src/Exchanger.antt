-- ===== src/Exchanger.antt =====
-- exchanger/: the factory of exchangers (exchanger/factory.go) over an interface of exchangers, whose
-- one implementation is in Changelly, and the handlers of client/rest-exchangers.go. A nil pointer and
-- a failed type assertion are a panic, a value of GoResult.
pub mod Values
pub mod Changelly
pub mod Handlers
pub mod Kept
pub mod Answers
mod Tests
use multy_back.Prelude.{
  ◌≡◌, Bool, Option, none, some, List, [], ◌∷◌, ◌++◌, Str, str_eq, find, if◌then◌else◌,
}
use multy_back.Exchanger.Values.{Value, nil}

pub data GoResult {ℓ} (A : Type ℓ) : Type ℓ where
  returned : A → GoResult A
  panicked : GoResult A

abbrev pub after {ℓ κ} : {A : Type ℓ} {B : Type κ} → GoResult A → (A → GoResult B) → GoResult B
after (returned a) f = f a
after panicked f = panicked

-- What the factory uses of `CommonExchangerInterface`: an object that `&ExchangerChangelly{}` makes,
-- `Init`, which never answers an error, and `GetName`.
pub record ExchangerInterface : Type 1 where
  pub Object : Type 0
  pub canonical_name : Str
  pub fresh : Object
  pub init : Value → Object → GoResult Object
  pub get_name : Object → Str
  pub init_named :
      (v : Value) (o o' : Object) → init v o ≡ returned o' → get_name o' ≡ canonical_name

-- `BasicExchangeConfiguration`
pub record BasicExchangeConfiguration : Type 0 where
  pub name : Str
  pub is_active : Bool
  pub config : Value

-- `Exchanger`
pub record SupportedExchanger : Type 0 where
  pub name : Str

unfoldable pub config_or_nil : Option BasicExchangeConfiguration → Value
config_or_nil none = nil
config_or_nil (some c) = c.config

unfoldable pub get_config_by_exchanger_name : Str → List BasicExchangeConfiguration → Value
unfolding config_or_nil
get_config_by_exchanger_name name configs = config_or_nil (find (λ c. str_eq c.name name) configs)

module _ (i : ExchangerInterface) where
  pub record Factory : Type 0 where
    pub exchangers : List i.Object
    pub configs : List BasicExchangeConfiguration

  unfoldable pub set_exchangers_config : List BasicExchangeConfiguration → Factory → Factory
  set_exchangers_config configs f = record f { configs = configs }

  unfoldable pub get_supported_exchangers : Factory → List SupportedExchanger
  get_supported_exchangers f = record { name = i.canonical_name } ∷ []

  -- The switch: the zero value of the interface is nil, and `Init` of it panics.
  unfoldable pub new_exchanger : Str → GoResult i.Object
  new_exchanger name = if str_eq name i.canonical_name then returned i.fresh else panicked

  unfoldable pub exchanger_found : Str → Option i.Object → Factory → GoResult (i.Object × Factory)
  unfolding new_exchanger get_config_by_exchanger_name
  exchanger_found name (some o) f = returned (o, f)
  exchanger_found name none f = after (new_exchanger name) (λ o.
      after (i.init (get_config_by_exchanger_name name f.configs) o)
        (λ o'. returned (o', record f { exchangers = f.exchangers ++ o' ∷ [] })))

  unfoldable pub get_exchanger : Str → Factory → GoResult (i.Object × Factory)
  unfolding exchanger_found
  get_exchanger name f =
      exchanger_found name (find (λ o. str_eq (i.get_name o) name) f.exchangers) f

-- ===== src/Btc/Outputs/Keys.antt =====
-- The keys of outputs.
use multy_back.Prelude.{ℕ, ◌≡◌, refl, sym, subst, true, false, arith, str_eq_iff, str_eq_refl}
use multy_back.Btc.Schemas.{SpendableOutput}
use multy_back.Btc.Outputs.{Key, key_of, key_eq, is_output, set_output_status}

pub key_eq_sound : (a b : Key) → key_eq a b ≡ true → a ≡ b
unfolding key_eq
key_eq_sound a b h = ground (
  arith,
  str_eq_iff a.user_id b.user_id,
  str_eq_iff a.tx_id b.tx_id,
  str_eq_iff a.address b.address,
)

pub key_eq_refl : (a : Key) → key_eq a a ≡ true
unfolding key_eq
key_eq_refl a = ground (arith, str_eq_refl a.user_id, str_eq_refl a.tx_id, str_eq_refl a.address)

pub key_eq_comm : (a b : Key) → key_eq a b ≡ key_eq b a
unfolding key_eq
key_eq_comm a b = ground (
  arith,
  str_eq_iff a.user_id b.user_id,
  str_eq_iff b.user_id a.user_id,
  str_eq_iff a.tx_id b.tx_id,
  str_eq_iff b.tx_id a.tx_id,
  str_eq_iff a.address b.address,
  str_eq_iff b.address a.address,
)

-- A change of the status keeps the key.
pub is_output-set_output_status :
    (k : Key) (status : ℕ) (o : SpendableOutput)
    → is_output k (set_output_status status o) ≡ is_output k o
unfolding is_output set_output_status
is_output-set_output_status k status o = refl

pub is_output_self : (o : SpendableOutput) → is_output (key_of o) o ≡ true
unfolding is_output
is_output_self o = key_eq_refl (key_of o)

pub is_output_sound : (k : Key) (o : SpendableOutput) → is_output k o ≡ true → key_of o ≡ k
unfolding is_output
is_output_sound k o = key_eq_sound (key_of o) k

-- An output of one key has no other.
pub is_output_other :
    (k j : Key) (o : SpendableOutput)
    → is_output k o ≡ true
    → key_eq k j ≡ false
    → is_output j o ≡ false
is_output_other k j o at_k other =
    (unfold is_output in subst (λ i. key_eq i j ≡ false) (sym (is_output_sound k o at_k)) other)

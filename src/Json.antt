-- ===== src/Json.antt =====
-- Python values that come from JSON, as the fingerprints and the raw facts hold them: integers are
-- natural numbers here, and a float is its 64-bit pattern.
use quipucords.Prelude.{
  ℕ, String, ◌≡◌, ◌↔◌, Bool, true, false, not, ◌||◌, Option, none, some, List, [], ◌∷◌, arith, Eq,
  ◌==◌, string_eq, nat_eq,
}
use text.Mathlib.TextEquality.{eq_iff}

mutual
  pub data Value : Type 0 where
    null : Value
    bool : Bool → Value
    int : ℕ → Value
    float : ℕ → Value
    str : String → Value
    arr : Elements → Value
    obj : Members → Value

  pub data Elements : Type 0 where
    no_elements : Elements
    element : Value → Elements → Elements

  pub data Members : Type 0 where
    no_members : Members
    member : String → Value → Members → Members

-- The bit pattern of -0.0.
abbrev negative_zero : ℕ
negative_zero = 9223372036854775808

-- Whether a value counts as true.
abbrev pub truthy : Value → Bool
truthy null = false
truthy (bool b) = b
truthy (int n) = not (n == 0)
truthy (float n) = not (n == 0 || n == negative_zero)
truthy (str s) = not (s == "")
truthy (arr no_elements) = false
truthy (arr (element v vs)) = true
truthy (obj no_members) = false
truthy (obj (member k v fs)) = true

abbrev pub is_null : Value → Bool
is_null null = true
is_null _ = false

abbrev pub elements : Elements → List Value
elements no_elements = []
elements (element v vs) = v ∷ elements vs

-- What a Python dict may be keyed by. An integral float has the hash of its integer in Python; here
-- floats are keys of their own.
pub data Key : Type 0 where
  none_key : Key
  int_key : ℕ → Key
  float_key : ℕ → Key
  str_key : String → Key

-- The key that a value is; `none` for a list or a dict, which are unhashable.
abbrev pub hash_key : Value → Option Key
hash_key null = some none_key
hash_key (bool true) = some (int_key 1)
hash_key (bool false) = some (int_key 0)
hash_key (int n) = some (int_key n)
hash_key (float n) = some (float_key n)
hash_key (str s) = some (str_key s)
hash_key (arr vs) = none
hash_key (obj fs) = none

abbrev pub key_beq : Key → Key → Bool
key_beq none_key none_key = true
key_beq (int_key a) (int_key b) = a == b
key_beq (float_key a) (float_key b) = a == b
key_beq (str_key a) (str_key b) = a == b
key_beq _ _ = false

pub key_beq_iff : (a b : Key) → (key_beq a b ≡ true) ↔ (a ≡ b)
key_beq_iff (str_key a) (str_key b) = ground (arith, eq_iff a b)
key_beq_iff none_key b = ground arith
key_beq_iff (int_key a) b = ground arith
key_beq_iff (float_key a) b = ground arith
key_beq_iff (str_key a) b = ground arith

instance abbrev pub key_eq : Eq Key
key_eq = record { beq = key_beq; beq_iff = key_beq_iff }

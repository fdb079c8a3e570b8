-- ===== src/Fingerprint/Model.antt =====
-- A fingerprint: in the source one dict, whose keys `metadata`, `sources`, `entitlements` and
-- `products` (quipucords/fingerprinter/constants.py) hold tables of their own. Here these are
-- fields, the two that may be missing are optional, and `facts` is the rest of the dict.
use quipucords.Prelude.{
  String, Bool, true, false, ◌||◌, Option, some, List, ◌==◌, string_eq, ◌≢◌, ap, ◌≡◌, refl,
}
use quipucords.Prelude.Dict.{Dict}
use quipucords.Json.{Value}

-- What went wrong: `KeyError`, `AttributeError`, `TypeError`, `OverflowError`, `AssertionError` or
-- `ValueError`.
pub data Fault : Type 0 where
  key_error : String → Fault
  attribute_error : Fault
  type_error : Fault
  overflow_error : Fault
  assertion_error : Fault
  value_error : Fault

pub data Result {κ} (V : Type κ) : Type κ where
  err : Fault → Result V
  ok : V → Result V

infixl 5 ◌>>=◌
abbrev pub ◌>>=◌ {κ ℓ} : {V : Type κ} {W : Type ℓ} → Result V → (V → Result W) → Result W
err fault >>= next = err fault
ok v >>= next = next v

-- A bind that succeeds, taken apart: the value in between, and how both parts ended.
pub >>=-ok_parts {κ ℓ} :
    {V : Type κ} {W : Type ℓ} (r : Result V) (next : V → Result W) {w : W}
    → (r >>= next) ≡ ok w
    → (v : V) × (r ≡ ok v) × (next v ≡ ok w)
>>=-ok_parts (err fault) next e = cc
>>=-ok_parts (ok v) next e = (v, refl, e)

pub ok_injective {ℓ} : {A : Type ℓ} {a b : A} → ok a ≡ ok b → a ≡ b
ok_injective {a = a} h = ap (elim [ ok c ↦ c | err _ ↦ a ]) h

pub err≢ok {ℓ} : {A : Type ℓ} {f : Fault} {a : A} → err f ≢ ok a
err≢ok e = cc

-- The metadata of a fact: where its value comes from.
pub record Meta : Type 0 where
  pub server_id : String
  pub source_name : String
  pub source_type : String
  pub raw_fact_key : String
  pub has_sudo : Value

-- A source of a fingerprint; its key in `sources` is `{server_id}+{source_name}`.
pub record SourceRef : Type 0 where
  pub server_id : String
  pub source_type : String
  pub source_name : String

-- An entitlement has a name, an id or both.
pub record Entitlement : Type 0 where
  pub name : Option String
  pub entitlement_id : Option String
  pub metadata : Meta

-- `Product.ABSENT`, `PRESENT`, `POTENTIAL` and `UNKNOWN`.
pub data Presence : Type 0 where
  absent present potential unknown : Presence

abbrev pub is_absent : Option Presence → Bool
is_absent (some absent) = true
is_absent _ = false

-- A product by its name, its presence if it has one, and whatever else its dict holds.
pub record Product : Type 0 where
  pub name : String
  pub presence : Option Presence
  pub details : Value

pub record Fingerprint : Type 0 where
  pub facts : Dict String Value
  pub metadata : Dict String Meta
  pub sources : Dict String SourceRef
  pub entitlements : Option (List Entitlement)
  pub products : Option (List Product)

abbrev pub entitlements_key : String
entitlements_key = "entitlements"

abbrev pub products_key : String
products_key = "products"

-- The names of the two optional tables, which no fact has.
abbrev pub is_table : String → Bool
is_table k = k == entitlements_key || k == products_key

abbrev pub global_id_key : String
global_id_key = "FINGERPRINT_GLOBAL_ID"

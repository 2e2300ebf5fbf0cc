-- ===== src/Models/JsonModel.antt =====
-- src/dal/src/lib.rs, `impl DBTable for T where T: JsonModel`, and the models of src/models that are kept
-- that way: a row is an id and a JSON value. `print`, `parse` and `read` are `to_string`, `Value::from_str`
-- and `from_value` of serde_json. The field `contents` of two models is `data` in the source.
use laas_reflab.Prelude.{ℕ, ◌≡◌, arith, String, Bool, true, Option, some, List, [], ◌∷◌}
use laas_reflab.Models.Rows.{
  uuid, json, uuid_type, jsonb_type, Column, ℤ, ◌>>=◌, >>=-eq-some, Row, accepts, stored, get_uuid,
  get_json, Keyed,
}

pub record Json (J A : Type 0) : Type 0 where
  pub print : A → Option String
  pub parse : String → Option J
  pub read : J → Option A

module _ {J A : Type 0} where
  abbrev pub data_of : Json J A → A → Option J
  data_of s a = s.print a >>= s.parse

  -- What is printed is parsed and read back.
  abbrev pub ReadsBack : Json J A → Type 0
  ReadsBack s = (a : A) (j : J) → data_of s a ≡ some j → s.read j ≡ some a

abbrev pub columns : List Column
columns =
    record { name = "id"; kind = uuid_type; not_null = true }
    ∷ record { name = "data"; kind = jsonb_type; not_null = true }
    ∷ []

module _ {J A : Type 0} (serde : Json J A) where
  abbrev pub from_row : Row J → Option A
  from_row row = do own ← get_uuid "id" row; v ← get_json "data" row; serde.read v

module _ {J A : Type 0} (serde : Json J A) (id : A → ℕ) where
  abbrev pub to_rowlike : A → Option (Row J)
  to_rowlike a = do v ← data_of serde a; some (("id", uuid (id a)) ∷ ("data", json v) ∷ [])

  pub accepts-columns : (a : A) (row : Row J) → to_rowlike a ≡ some row → accepts columns row ≡ true
  accepts-columns a row e = let (j, q, e₁) = >>=-eq-some (data_of serde a) _ e in ground arith

  pub row-Keyed : (a : A) (row : Row J) → to_rowlike a ≡ some row → Keyed columns row (id a)
  row-Keyed a row e =
      let (j, q, e₁) = >>=-eq-some (data_of serde a) _ e in
      record { all = ground arith; again = ground arith; key = ground arith; one = ground arith }

  pub from_row-stored :
      ReadsBack serde
      → (a : A) (row : Row J) → to_rowlike a ≡ some row
      → from_row serde (stored columns row) ≡ some a
  from_row-stored r a row e =
      let (j, q, e₁) = >>=-eq-some (data_of serde a) _ e in ground (arith, r a j q)

pub record Switch : Type 0 where
  pub id : ℕ
  pub name : String
  pub ip : String
  pub user : String
  pub pass : String
  pub switch_type : String

pub record SwitchPort : Type 0 where
  pub id : ℕ
  pub for_switch : ℕ
  pub name : String
  pub mac_address : Option ℕ

pub record Action : Type 0 where
  pub id : ℕ
  pub for_host : ℕ
  pub in_tascii : ℕ
  pub is_complete : Bool

pub record Network : Type 0 where
  pub id : ℕ
  pub name : String
  pub public : Bool

pub record Cifile : Type 0 where
  pub id : ℕ
  pub priority : ℤ
  pub contents : String

pub record PartialTemplate (J : Type 0) : Type 0 where
  pub id : ℕ
  pub owner : ℤ
  pub at_lab : String
  pub contents : J

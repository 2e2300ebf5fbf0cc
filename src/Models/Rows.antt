-- ===== src/Models/Rows.antt =====
-- src/dal/src/lib.rs: the rows that `to_rowlike` gives and `from_row` takes, and the columns of a table,
-- as a migration creates them. `J` stands for the JSON values of serde_json.
use Prim.Native.String.{count}
use text.Mathlib.Text.{◌==◌ as str_eq}
use laas_reflab.Prelude.{
  ℕ, ◌≡◌, refl, arith, String, Bool, true, false, ◌&&◌, ◌||◌, Option, none, some, List, [], ◌∷◌,
  leb, is_some, if◌then◌else◌,
}

-- `i64` and `i16`.
pub data ℤ : Type 0 where
  pos negsuc : ℕ → ℤ

pub data Value (J : Type 0) : Type 0 where
  uuid : ℕ → Value J
  varchar : String → Value J
  boolean : Bool → Value J
  small : ℤ → Value J
  mac_addr : ℕ → Value J
  -- in microseconds
  timestamp : ℕ → Value J
  json : J → Value J
  uuids : List ℕ → Value J
  texts : List String → Value J
  null : Value J

pub data SqlType : Type 0 where
  uuid_type varchar_type boolean_type smallint_type macaddr_type timestamptz_type jsonb_type
        uuid_array varchar_array :
      SqlType
  -- `VARCHAR(n)`
  varchar_max : ℕ → SqlType

pub record Column : Type 0 where
  pub name : String
  pub kind : SqlType
  pub not_null : Bool

-- `Option` with the `?` of the source.
module _ {A B : Type 0} where
  infixl 5 ◌>>=◌
  abbrev pub ◌>>=◌ : Option A → (A → Option B) → Option B
  ◌>>=◌ none f = none
  ◌>>=◌ (some a) f = f a

  pub >>=-eq-some :
      (m : Option A) (f : A → Option B) {b : B}
      → (m >>= f) ≡ some b
      → (a : A) × (m ≡ some a) × (f a ≡ some b)
  >>=-eq-some none f e = absurd (ground arith)
  >>=-eq-some (some a) f e = (a, refl, e)

module _ {A : Type 0} where
  abbrev pub unwrap_or : A → Option A → A
  unwrap_or default none = default
  unwrap_or default (some a) = a

-- `serde_json::to_value` and `from_value` at one type.
pub record Codec (J A : Type 0) : Type 0 where
  pub to_value : A → Option J
  pub from_value : J → Option A

-- What is written is read back.
module _ {J A : Type 0} where
  abbrev pub RoundTrips : Codec J A → Type 0
  RoundTrips c = (a : A) (j : J) → c.to_value a ≡ some j → c.from_value j ≡ some a

abbrev pub Row : Type 0 → Type 0
Row J = List (String × Value J)

abbrev pub has_column : List Column → String → Bool
has_column [] name = false
has_column (c ∷ cs) name = str_eq c.name name || has_column cs name

module _ {J : Type 0} where
  -- Whether the value is of the column's type, and short enough for it. It holds no NULL back here. Postgres
  -- also stores a longer text whose excess is spaces, which it cuts, and refuses a NUL in a text: the
  -- first is counted as not suiting here, and the second is left out.
  abbrev pub suits : SqlType → Value J → Bool
  suits uuid_type (uuid i) = true
  suits varchar_type (varchar s) = true
  suits (varchar_max n) (varchar s) = leb (count s) n
  suits boolean_type (boolean b) = true
  suits smallint_type (small i) = true
  suits macaddr_type (mac_addr m) = true
  suits timestamptz_type (timestamp t) = true
  suits jsonb_type (json j) = true
  suits uuid_array (uuids is) = true
  suits varchar_array (texts ts) = true
  suits t null = true
  suits t v = false

  abbrev pub is_null : Value J → Bool
  is_null null = true
  is_null v = false

  abbrev pub column : String → Row J → Option (Value J)
  column name [] = none
  column name ((key, v) ∷ row) =
      let later = column name row in if str_eq key name then some v else later

  -- The value that a row of an `INSERT` gives to a column.
  abbrev pub given : Row J → Column → Value J
  given row c = elim (column c.name row) [ some v ↦ v | none ↦ null ]

  abbrev pub known : List Column → Row J → Bool
  known cs [] = true
  known cs ((key, v) ∷ row) = has_column cs key && known cs row

  abbrev pub filled : List Column → Row J → Bool
  filled [] row = true
  filled (c ∷ cs) row =
      suits c.kind (given row c)
      && (if c.not_null then (if is_null (given row c) then false else true) else true)
      && filled cs row

  -- Whether an `INSERT` of the row passes the types of the columns and their `NOT NULL`.
  abbrev pub accepts : List Column → Row J → Bool
  accepts cs row = known cs row && filled cs row

  -- The row that a later `SELECT *` gives.
  abbrev pub stored : List Column → Row J → Row J
  stored [] row = []
  stored (c ∷ cs) row = (c.name, given row c) ∷ stored cs row

  -- Whether the row gives every column.
  abbrev pub names_all : List Column → Row J → Bool
  names_all [] row = true
  names_all (c ∷ cs) row = is_some (column c.name row) && names_all cs row

  -- The columns of a row that an `upsert` sets when the row is there: those that pass `col == "id"`.
  abbrev pub update_cols : Row J → Row J
  update_cols [] = []
  update_cols ((key, v) ∷ row) =
      let rest = update_cols row in if str_eq key "id" then (key, v) ∷ rest else rest

  -- `row.try_get(name)?` at the types that the models read.
  abbrev pub get_uuid : String → Row J → Option ℕ
  get_uuid name row = column name row >>= λ v. elim v [ uuid i ↦ some i | _ ↦ none ]

  abbrev pub get_text : String → Row J → Option String
  get_text name row = column name row >>= λ v. elim v [ varchar s ↦ some s | _ ↦ none ]

  abbrev pub get_bool : String → Row J → Option Bool
  get_bool name row = column name row >>= λ v. elim v [ boolean b ↦ some b | _ ↦ none ]

  abbrev pub get_small : String → Row J → Option ℤ
  get_small name row = column name row >>= λ v. elim v [ small i ↦ some i | _ ↦ none ]

  abbrev pub get_mac : String → Row J → Option ℕ
  get_mac name row = column name row >>= λ v. elim v [ mac_addr m ↦ some m | _ ↦ none ]

  abbrev pub get_time : String → Row J → Option ℕ
  get_time name row = column name row >>= λ v. elim v [ timestamp t ↦ some t | _ ↦ none ]

  abbrev pub get_json : String → Row J → Option J
  get_json name row = column name row >>= λ v. elim v [ json j ↦ some j | _ ↦ none ]

  abbrev pub get_uuids : String → Row J → Option (List ℕ)
  get_uuids name row = column name row >>= λ v. elim v [ uuids is ↦ some is | _ ↦ none ]

  abbrev pub get_texts : String → Row J → Option (List String)
  get_texts name row = column name row >>= λ v. elim v [ texts ts ↦ some ts | _ ↦ none ]

  -- At an `Option`, a NULL is `None`.
  abbrev pub get_uuid? : String → Row J → Option (Option ℕ)
  get_uuid? name row =
      column name row >>= λ v. elim v [ uuid i ↦ some (some i) | null ↦ some none | _ ↦ none ]

  abbrev pub get_text? : String → Row J → Option (Option String)
  get_text? name row =
      column name row >>= λ v. elim v [ varchar s ↦ some (some s) | null ↦ some none | _ ↦ none ]

  abbrev pub json? : Value J → Option (Option J)
  json? (json j) = some (some j)
  json? null = some none
  json? v = none

  abbrev pub get_json? : String → Row J → Option (Option J)
  get_json? name row = column name row >>= json?

  -- `Box::new` of an `Option`.
  abbrev pub nullable : {A : Type 0} → (A → Value J) → Option A → Value J
  nullable of none = null
  nullable of (some a) = of a

-- What the operations of a table need of the row that a model is written as: it gives every column once,
-- and the id under "id".
pub record Keyed {J : Type 0} (cs : List Column) (row : Row J) (id : ℕ) : Type 0 where
  pub all : names_all cs row ≡ true
  pub again : stored cs (stored cs row) ≡ stored cs row
  pub key : column "id" (stored cs row) ≡ some (uuid id)
  pub one : update_cols row ≡ ("id", uuid id) ∷ []

-- ===== src/Models/Inventory/Flavor.antt =====
-- inventory.rs, `impl DBTable for Flavor`, with `Arch::to_string` and `Arch::from_string`.
use Prim.Native.String.{count}
use text.Mathlib.Text.{◌==◌ as str_eq}
use laas_reflab.Prelude.{
  ℕ, ◌≡◌, refl, arith, String, Bool, true, Option, none, some, List, [], ◌∷◌, leb, ltb, ◌<◌, ◌-◌,
  if◌then◌else◌,
}
use laas_reflab.Models.Rows.{
  uuid, varchar, boolean, json, uuid_type, varchar_type, boolean_type, jsonb_type, varchar_max,
  Column, ℤ, pos, negsuc, ◌>>=◌, >>=-eq-some, Codec, RoundTrips, Row, accepts, stored, get_uuid,
  get_text, get_bool, get_json, Keyed,
}
use laas_reflab.Models.Inventory.{DataValue, Arch, x86, x86_64, aarch64}

pub record Flavor : Type 0 where
  pub id : ℕ
  pub arch : Arch
  pub name : String
  pub public : Bool
  pub cpu_count : ℕ
  pub ram : DataValue
  pub root_size : DataValue
  pub disk_size : DataValue
  pub swap_size : DataValue

abbrev pub columns : List Column
columns =
    record { name = "id"; kind = uuid_type; not_null = true }
    ∷ record { name = "arch"; kind = varchar_type; not_null = true }
    ∷ record { name = "name"; kind = varchar_max 1000; not_null = true }
    ∷ record { name = "public"; kind = boolean_type; not_null = true }
    ∷ record { name = "cpu_count"; kind = jsonb_type; not_null = true }
    ∷ record { name = "ram"; kind = jsonb_type; not_null = true }
    ∷ record { name = "root_size"; kind = jsonb_type; not_null = true }
    ∷ record { name = "disk_size"; kind = jsonb_type; not_null = true }
    ∷ record { name = "swap_size"; kind = jsonb_type; not_null = true }
    ∷ []

-- Whether the table takes it.
abbrev pub fits : Flavor → Bool
fits f = leb (count f.name) 1000

abbrev pub to_string : Arch → String
to_string x86 = "x86"
to_string x86_64 = "x86_64"
to_string aarch64 = "aarch64"

abbrev pub from_string : String → Option Arch
from_string s =
    if str_eq s "x86"
    then some x86
    else if str_eq s "x86_64"
    then some x86_64
    else if str_eq s "aarch64"
    then some aarch64
    else none

-- `as i64` of a `usize` and back, in two's complement: 2 ^ 63 and 2 ^ 64 - 1.
abbrev pub as_i64 : ℕ → ℤ
as_i64 n = if ltb n 9223372036854775808 then pos n else negsuc (18446744073709551615 - n)

abbrev pub as_usize : ℤ → ℕ
as_usize (pos n) = n
as_usize (negsuc n) = 18446744073709551615 - n

-- `.min(0)`.
abbrev pub min_0 : ℤ → ℤ
min_0 (pos n) = pos 0
min_0 (negsuc n) = negsuc n

-- The number of CPUs that a flavor is loaded with.
abbrev pub loaded_cpus : ℕ → ℕ
loaded_cpus n = if ltb n 9223372036854775808 then 0 else n

module _ {J : Type 0} (i64s : Codec J ℤ) (values : Codec J DataValue) where
  abbrev pub to_rowlike : Flavor → Option (Row J)
  to_rowlike f = do
    cpu_count ← i64s.to_value (as_i64 f.cpu_count)
    ram ← values.to_value f.ram
    root_size ← values.to_value f.root_size
    disk_size ← values.to_value f.disk_size
    swap_size ← values.to_value f.swap_size
    some (
        ("id", uuid f.id)
        ∷ ("arch", varchar (to_string f.arch))
        ∷ ("name", varchar f.name)
        ∷ ("public", boolean f.public)
        ∷ ("cpu_count", json cpu_count)
        ∷ ("ram", json ram)
        ∷ ("root_size", json root_size)
        ∷ ("disk_size", json disk_size)
        ∷ ("swap_size", json swap_size)
        ∷ [])

  abbrev pub from_row : Row J → Option Flavor
  from_row row = do
    id ← get_uuid "id" row
    arch_name ← get_text "arch" row
    arch ← from_string arch_name
    name ← get_text "name" row
    public ← get_bool "public" row
    cpu_count_json ← get_json "cpu_count" row
    cpu_count ← i64s.from_value cpu_count_json
    ram_json ← get_json "ram" row
    ram ← values.from_value ram_json
    root_size_json ← get_json "root_size" row
    root_size ← values.from_value root_size_json
    disk_size_json ← get_json "disk_size" row
    disk_size ← values.from_value disk_size_json
    swap_size_json ← get_json "swap_size" row
    swap_size ← values.from_value swap_size_json
    some (record {
      id = id;
      arch = arch;
      name = name;
      public = public;
      cpu_count = as_usize (min_0 cpu_count);
      ram = ram;
      root_size = root_size;
      disk_size = disk_size;
      swap_size = swap_size;
    })

  pub accepts-columns :
      (f : Flavor) (row : Row J) → to_rowlike f ≡ some row → accepts columns row ≡ fits f
  accepts-columns f row e =
      let (j₁, q₁, e₁) = >>=-eq-some (i64s.to_value (as_i64 f.cpu_count)) _ e in
      let (j₂, q₂, e₂) = >>=-eq-some (values.to_value f.ram) _ e₁ in
      let (j₃, q₃, e₃) = >>=-eq-some (values.to_value f.root_size) _ e₂ in
      let (j₄, q₄, e₄) = >>=-eq-some (values.to_value f.disk_size) _ e₃ in
      let (j₅, q₅, e₅) = >>=-eq-some (values.to_value f.swap_size) _ e₄ in ground arith

  pub row-Keyed : (f : Flavor) (row : Row J) → to_rowlike f ≡ some row → Keyed columns row f.id
  row-Keyed f row e =
      let (j₁, q₁, e₁) = >>=-eq-some (i64s.to_value (as_i64 f.cpu_count)) _ e in
      let (j₂, q₂, e₂) = >>=-eq-some (values.to_value f.ram) _ e₁ in
      let (j₃, q₃, e₃) = >>=-eq-some (values.to_value f.root_size) _ e₂ in
      let (j₄, q₄, e₄) = >>=-eq-some (values.to_value f.disk_size) _ e₃ in
      let (j₅, q₅, e₅) = >>=-eq-some (values.to_value f.swap_size) _ e₄ in
      record { all = ground arith; again = ground arith; key = ground arith; one = ground arith }

  from_string-to_string : (a : Arch) → from_string (to_string a) ≡ some a
  from_string-to_string x86 = refl
  from_string-to_string x86_64 = refl
  from_string-to_string aarch64 = refl

  as_usize-as_i64 : (n : ℕ) → n < 18446744073709551616 → as_usize (min_0 (as_i64 n)) ≡ loaded_cpus n
  as_usize-as_i64 n h = ground arith

  -- A flavor comes back as it was stored, but with as many CPUs as `loaded_cpus` says.
  pub from_row-stored :
      RoundTrips i64s
      → RoundTrips values
      → (f : Flavor) (row : Row J) → f.cpu_count < 18446744073709551616
      → to_rowlike f ≡ some row
      → from_row (stored columns row) ≡ some (record f { cpu_count = loaded_cpus f.cpu_count })
  from_row-stored ri rv f row h e =
      let (j₁, q₁, e₁) = >>=-eq-some (i64s.to_value (as_i64 f.cpu_count)) _ e in
      let (j₂, q₂, e₂) = >>=-eq-some (values.to_value f.ram) _ e₁ in
      let (j₃, q₃, e₃) = >>=-eq-some (values.to_value f.root_size) _ e₂ in
      let (j₄, q₄, e₄) = >>=-eq-some (values.to_value f.disk_size) _ e₃ in
      let (j₅, q₅, e₅) = >>=-eq-some (values.to_value f.swap_size) _ e₄ in
      ground (
        arith,
        from_string-to_string f.arch,
        as_usize-as_i64 f.cpu_count h,
        ri (as_i64 f.cpu_count) j₁ q₁,
        rv f.ram j₂ q₂,
        rv f.root_size j₃ q₃,
        rv f.disk_size j₄ q₄,
        rv f.swap_size j₅ q₅,
      )

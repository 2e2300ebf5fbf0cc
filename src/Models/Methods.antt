-- ===== src/Models/Methods.antt =====
-- src/models: every table has the default methods of `DBTable`.
use laas_reflab.Models.Tables.{
  Table, Model, columns, Serde, Lawful, id_of, IsUsize, as_loaded, to_rowlike, from_row, row-Keyed,
  from_row-stored,
}
use laas_reflab.Dal.Table.{DbTable}
use laas_reflab.Dal.Table.Entries

module _ {J : Type 0} (s : Serde J) where
  abbrev pub methods : (t : Table) → DbTable J (Model J t)
  methods t = record {
    columns = columns t;
    id = id_of J t;
    to_rowlike = to_rowlike s t;
    from_row = from_row s t;
  }

  pub methods-Lawful :
      Lawful s → (t : Table) → Entries.Lawful (methods t) (IsUsize J t) (as_loaded J t)
  methods-Lawful l t = record {
    keyed = row-Keyed s t;
    loads = λ a row h e. from_row-stored s l t a row h e;
  }

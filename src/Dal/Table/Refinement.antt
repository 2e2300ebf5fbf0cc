-- ===== src/Dal/Table/Refinement.antt =====
-- lib.rs, `DBTable`: the methods on a table do to its models what they would do to a list of them.
use laas_reflab.Prelude.{
  ℕ, ◌≡◌, refl, sym, ap, subst, ◌∙◌, arith, Bool, true, false, Option, none, some, List, [], ◌∷◌,
  ◌++◌, ◌==◌, any, select, Bool-cases, inl, inr, ==_iff,
}
use laas_reflab.Dal.Transaction.{Res, ok, err, Session, ◌>>=◌, ok_or}
use laas_reflab.Models.Rows.{Column, Row, accepts, known, filled, stored, update_cols}
use laas_reflab.Dal.Table.{
  DbTable, is_row, set_rows, query_one, write, write_set, insert_row, update_rows, upsert_row, get,
}
use laas_reflab.Dal.Table.Columns.{filled-stored}
use laas_reflab.Dal.Table.Effects.{
  Call, argument, present, find, Distinct, replaced, Distinct-append, Distinct-replaced,
}
use laas_reflab.Dal.Table.Entries.{
  Lawful, Entry, Holds, Holds-append, Entry-id, Holds-present, Holds-set_rows, set_rows-id,
}

module _ {J A : Type 0} (T : DbTable J A) (Valid : A → Type 0) where
  abbrev pub AllValid : List (Call A) → Type 0
  AllValid [] = Unit {0}
  AllValid (c ∷ cs) = Valid (argument c) × AllValid cs

  -- The rows stand for the models, and no two models have the same id.
  abbrev pub Tabled : List (Row J) → List A → Type 0
  Tabled rows ms = Holds T Valid rows ms × Distinct T ms

  module _ {as_loaded : A → A} (l : Lawful T Valid as_loaded) where
    none_selected :
        (rows : List (Row J)) (ms : List A) (i : ℕ)
        → Holds T Valid rows ms
        → present T i ms ≡ false
        → select (is_row i) rows ≡ []
    none_selected [] [] i h p = refl
    none_selected (r ∷ rows) (m ∷ ms) i (e, h) p =
        ground (arith, none_selected rows ms i h, Entry-id T Valid l r m e i)
    none_selected [] (m ∷ ms) i h p = absurd h
    none_selected (r ∷ rows) [] i h p = absurd h

    -- What `get` finds.
    abbrev pub found : Option A → Session (List (Row J)) → Res A × Session (List (Row J))
    found none s = (err "query returned an unexpected number of rows", s)
    found (some a) s = (ok (as_loaded a), s)

    loaded :
        (r : Row J) (a : A) (s : Session (List (Row J)))
        → Entry T Valid r a
        → ok_or "the row does not convert" (T.from_row r) s ≡ (ok (as_loaded a), s)
    loaded r a s e =
        ap (λ o. ok_or "the row does not convert" o s)
          (ap T.from_row e.same ∙ l.loads a e.rowlike e.valid e.converts)

    one_found :
        (rows : List (Row J)) (ms : List A) (i : ℕ) (s : Session (List (Row J)))
        → Tabled rows ms
        → (query_one (select (is_row i) rows) >>= λ row.
              ok_or "the row does not convert" (T.from_row row))
            s
          ≡ found (find T i ms) s
    one_found [] [] i s t = refl
    one_found (r ∷ rows) (m ∷ ms) i s ((e, h), (q, d)) = elim (Bool-cases (T.id m == i)) [
      | inl t ↦
          let there : is_row i r ≡ true = Entry-id T Valid l r m e i ∙ t in
          let alone : select (is_row i) rows ≡ [] =
            none_selected rows ms i h
              (subst (λ n. present T n ms ≡ false) ((==_iff (T.id m) i).0 t) q) in
          ground (arith, loaded r m s e)
      | inr f ↦
          let elsewhere : is_row i r ≡ false = Entry-id T Valid l r m e i ∙ f in
          ground (arith, one_found rows ms i s (h, d))
    ]
    one_found [] (m ∷ ms) i s (h, d) = absurd h
    one_found (r ∷ rows) [] i s (h, d) = absurd h

    pub get_found :
        (ms : List A) (i : ℕ) (s : Session (List (Row J)))
        → Tabled s.db ms
        → get T i s ≡ found (find T i ms) s
    unfolding get
    get_found ms i s t = one_found s.db ms i s t

    module _ (holds : List (Row J) → Bool) where
      pub Tabled-insert_row :
          (ms : List A) (a : A) (row : Row J) (s s' : Session (List (Row J)))
          → Tabled s.db ms
          → Valid a
          → T.to_rowlike a ≡ some row
          → insert_row holds T.columns (T.id a) row s ≡ (ok tt, s')
          → Tabled s'.db (ms ++ a ∷ [])
      Tabled-insert_row ms a row s s' (h, d) v e q =
          let k = l.keyed a row e in
          let absent : any (is_row (T.id a)) s.db ≡ false = ground arith in
          let whole : filled T.columns row ≡ true = ground arith in
          let after : s'.db ≡ s.db ++ stored T.columns row ∷ [] = ground arith in
          let entry : Entry T Valid (stored T.columns row) a = record {
            rowlike = row;
            converts = e;
            same = refl;
            valid = v;
            full = filled-stored T.columns (stored T.columns row) row k.again ∙ whole;
          } in
          (
            subst (λ rows. Holds T Valid rows (ms ++ a ∷ [])) (sym after)
                (Holds-append T Valid s.db ms (stored T.columns row) a h entry),
            Distinct-append T ms a d (sym (Holds-present T Valid l s.db ms h (T.id a)) ∙ absent),
          )

      pub Tabled-update_rows :
          (ms : List A) (a : A) (row : Row J) (s s' : Session (List (Row J)))
          → Tabled s.db ms
          → Valid a
          → T.to_rowlike a ≡ some row
          → update_rows holds T.columns (T.id a) row s ≡ (ok tt, s')
          → Tabled s'.db (replaced T a ms)
      Tabled-update_rows ms a row s s' (h, d) v e q =
          go (set_rows T.columns (T.id a) row s.db) refl (ground arith)
        where
          go :
              (o : Option (List (Row J)))
              → set_rows T.columns (T.id a) row s.db ≡ o
              → write_set holds o s ≡ (ok tt, s')
              → Tabled s'.db (replaced T a ms)
          go none o w = absurd (ground arith)
          go (some done) o w =
              let after : s'.db ≡ done = ground arith in
              (
                subst (λ rows. Holds T Valid rows (replaced T a ms)) (sym after)
                    (Holds-set_rows T Valid l s.db ms a row h v e o),
                Distinct-replaced T a ms d,
              )

      known-update_cols :
          (cs : List Column) (row : Row J) → known cs row ≡ true → known cs (update_cols row) ≡ true
      known-update_cols cs [] h = refl
      known-update_cols cs ((key, v) ∷ row) h = ground (arith, known-update_cols cs row)

      -- An upsert of a model that is there leaves the rows as they are.
      pub upsert_row-present :
          (ms : List A) (a : A) (row : Row J) (s : Session (List (Row J)))
          → Tabled s.db ms
          → T.to_rowlike a ≡ some row
          → present T (T.id a) ms ≡ true
          → accepts T.columns row ≡ true
          → upsert_row holds T.columns (T.id a) row s ≡ write holds s.db s
      upsert_row-present ms a row s (h, d) e p ok_row =
          let k = l.keyed a row e in
          let there : any (is_row (T.id a)) s.db ≡ true =
            Holds-present T Valid l s.db ms h (T.id a) ∙ p in
          let fine : known T.columns (update_cols row) ≡ true =
            known-update_cols T.columns row (ground arith) in
          let same : set_rows T.columns (T.id a) (update_cols row) s.db ≡ some s.db =
            ap (λ r. set_rows T.columns (T.id a) r s.db) k.one
            ∙ set_rows-id T Valid l s.db ms h (T.id a) in
          ground (arith, there, fine, same, ok_row)

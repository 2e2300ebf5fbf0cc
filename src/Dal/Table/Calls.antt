-- ===== src/Dal/Table/Calls.antt =====
-- lib.rs, `DBTable`: any sequence of calls on a table.
use laas_reflab.Prelude.{
  ℕ, ◌≡◌, sym, subst, ◌∙◌, arith, Bool, true, not, some, List, [], ◌∷◌, ◌++◌, select, Bool-cases,
  inl, inr, if◌then◌else◌,
}
use laas_reflab.Dal.Transaction.{
  ok, err, Session, M, ◌>>=◌, ◌>>◌, >>=-eq-ok, pure, ok_or, ok_or-eq-ok,
}
use laas_reflab.Models.Rows.{Row, accepts, stored}
use laas_reflab.Dal.Table.{
  DbTable, is_row, write, insert_row, upsert_row, get, insert, upsert, update, delete,
}
use laas_reflab.Dal.Table.Effects.{
  Call, inserts, updates, upserts, deletes, argument, effect, effects, present, find, replaced,
  without, Distinct-without,
}
use laas_reflab.Dal.Table.Entries.{Lawful, Holds-present, Holds-without}
use laas_reflab.Dal.Table.Refinement.{
  AllValid, Tabled, found, get_found, Tabled-insert_row, Tabled-update_rows, upsert_row-present,
}

module _ {J A : Type 0} (T : DbTable J A) (holds : List (Row J) → Bool) where
  unfoldable pub make : Call A → M (List (Row J)) (Unit {0})
  make (inserts a) = do id ← insert holds T a; pure tt
  make (updates a) = update holds T a
  make (upserts a) = do id ← upsert holds T a; pure tt
  make (deletes a) = delete holds T a

  unfoldable pub make_all : List (Call A) → M (List (Row J)) (Unit {0})
  make_all [] = pure tt
  make_all (c ∷ cs) = do make c; make_all cs

  module _ (Valid : A → Type 0) {as_loaded : A → A} (l : Lawful T Valid as_loaded) where
    Tabled-insert :
        (ms : List A) (a : A) (s s' : Session (List (Row J))) {i : ℕ}
        → Tabled T Valid s.db ms
        → Valid a
        → insert holds T a s ≡ (ok i, s')
        → Tabled T Valid s'.db (ms ++ a ∷ [])
    unfolding insert
    Tabled-insert ms a s s' t v e =
        let (row, s₁, r, e₁) =
          >>=-eq-ok (ok_or "the model does not convert" (T.to_rowlike a)) _ s e in
        let (done, s₂, w, e₂) = >>=-eq-ok (insert_row holds T.columns (T.id a) row) _ s₁ e₁ in
        let (c, same) = ok_or-eq-ok "the model does not convert" (T.to_rowlike a) s r in
        let before : Tabled T Valid s₁.db ms =
          subst (λ (u : Session (List (Row J))). Tabled T Valid u.db ms) (sym same) t in
        let after = Tabled-insert_row T Valid l holds ms a row s₁ s₂ before v c w in
        let last : s₂ ≡ s' = ground arith in
        subst (λ (u : Session (List (Row J))). Tabled T Valid u.db (ms ++ a ∷ [])) last after

    Tabled-update :
        (ms : List A) (a : A) (s s' : Session (List (Row J)))
        → Tabled T Valid s.db ms
        → Valid a
        → update holds T a s ≡ (ok tt, s')
        → Tabled T Valid s'.db (replaced T a ms)
    unfolding update
    Tabled-update ms a s s' t v e =
        let (row, s₁, r, e₁) =
          >>=-eq-ok (ok_or "the model does not convert" (T.to_rowlike a)) _ s e in
        let (c, same) = ok_or-eq-ok "the model does not convert" (T.to_rowlike a) s r in
        let before : Tabled T Valid s₁.db ms =
          subst (λ (u : Session (List (Row J))). Tabled T Valid u.db ms) (sym same) t in
        Tabled-update_rows T Valid l holds ms a row s₁ s' before v c e₁

    after_upsert :
        (ms : List A) (a : A) (row : Row J) (s s' : Session (List (Row J)))
        → Tabled T Valid s.db ms
        → Valid a
        → T.to_rowlike a ≡ some row
        → upsert_row holds T.columns (T.id a) row s ≡ (ok tt, s')
        → Tabled T Valid s'.db (effect T (upserts a) ms)
    after_upsert ms a row s s' t v c w =
        let there = Holds-present T Valid l s.db ms t.0 (T.id a) in
        elim (Bool-cases (present T (T.id a) ms)) [
          | inl p ↦ elim (Bool-cases (accepts T.columns row)) [
            | inl y ↦
                let kept : write holds s.db s ≡ (ok tt, s') =
                  sym (upsert_row-present T Valid l holds ms a row s t c p y) ∙ w in
                let same : s'.db ≡ s.db = ground arith in
                subst (λ b. Tabled T Valid s'.db (if b then ms else ms ++ a ∷ [])) (sym p)
                  (subst (λ rows. Tabled T Valid rows ms) (sym same) t)
            | inr n ↦ absurd (ground (arith, n))
          ]
          | inr q ↦
              let new : insert_row holds T.columns (T.id a) row s ≡ (ok tt, s') =
                ground (arith, there, q) in
              subst (λ b. Tabled T Valid s'.db (if b then ms else ms ++ a ∷ [])) (sym q)
                (Tabled-insert_row T Valid l holds ms a row s s' t v c new)
        ]

    Tabled-upsert :
        (ms : List A) (a : A) (s s' : Session (List (Row J))) {i : ℕ}
        → Tabled T Valid s.db ms
        → Valid a
        → upsert holds T a s ≡ (ok i, s')
        → Tabled T Valid s'.db (effect T (upserts a) ms)
    unfolding upsert
    Tabled-upsert ms a s s' t v e =
        let (row, s₁, r, e₁) =
          >>=-eq-ok (ok_or "the model does not convert" (T.to_rowlike a)) _ s e in
        let (done, s₂, w, e₂) = >>=-eq-ok (upsert_row holds T.columns (T.id a) row) _ s₁ e₁ in
        let (c, same) = ok_or-eq-ok "the model does not convert" (T.to_rowlike a) s r in
        let before : Tabled T Valid s₁.db ms =
          subst (λ (u : Session (List (Row J))). Tabled T Valid u.db ms) (sym same) t in
        let after = after_upsert ms a row s₁ s₂ before v c w in
        let last : s₂ ≡ s' = ground arith in
        subst (λ (u : Session (List (Row J))). Tabled T Valid u.db (effect T (upserts a) ms)) last
          after

    Tabled-delete :
        (ms : List A) (a : A) (s s' : Session (List (Row J)))
        → Tabled T Valid s.db ms
        → delete holds T a s ≡ (ok tt, s')
        → Tabled T Valid s'.db (without T (T.id a) ms)
    unfolding delete
    Tabled-delete ms a s s' t e =
        let after : s'.db ≡ select (λ row. not (is_row (T.id a) row)) s.db = ground arith in
        subst (λ rows. Tabled T Valid rows (without T (T.id a) ms)) (sym after)
          (Holds-without T Valid l s.db ms t.0 (T.id a), Distinct-without T (T.id a) ms t.1)

    make-effect :
        (c : Call A) (ms : List A) (s s' : Session (List (Row J)))
        → Tabled T Valid s.db ms
        → Valid (argument c)
        → make c s ≡ (ok tt, s')
        → Tabled T Valid s'.db (effect T c ms)
    unfolding make
    make-effect (inserts a) ms s s' t v e =
        let (i, s₁, w, e₁) = >>=-eq-ok (insert holds T a) (λ i. pure tt) s e in
        let last : s₁ ≡ s' = ground arith in
        subst (λ (u : Session (List (Row J))). Tabled T Valid u.db (ms ++ a ∷ [])) last
          (Tabled-insert ms a s s₁ {i = i} t v w)
    make-effect (updates a) ms s s' t v e = Tabled-update ms a s s' t v e
    make-effect (upserts a) ms s s' t v e =
        let (i, s₁, w, e₁) = >>=-eq-ok (upsert holds T a) (λ i. pure tt) s e in
        let last : s₁ ≡ s' = ground arith in
        subst (λ (u : Session (List (Row J))). Tabled T Valid u.db (effect T (upserts a) ms)) last
          (Tabled-upsert ms a s s₁ {i = i} t v w)
    make-effect (deletes a) ms s s' t v e = Tabled-delete ms a s s' t e

    -- Calls that succeed on a table refine the same calls on a list of models with distinct ids, where an
    -- insert adds a model, an update replaces the one with its id, a delete takes it away, and an upsert
    -- adds a model whose id is not there and does nothing otherwise. `get` of an id then gives the model
    -- of that id in the list, as it is loaded, or an error when there is none.
    pub make_all_refines :
        (cs : List (Call A)) (ms : List A) (s s' : Session (List (Row J)))
        → Tabled T Valid s.db ms
        → AllValid T Valid cs
        → make_all cs s ≡ (ok tt, s')
        → Tabled T Valid s'.db (effects T cs ms)
          × ((i : ℕ) → get T i s' ≡ found T Valid l (find T i (effects T cs ms)) s')
    unfolding make_all
    make_all_refines [] ms s s' t v e =
        let last : s ≡ s' = ground arith in
        let after = subst (λ (u : Session (List (Row J))). Tabled T Valid u.db ms) last t in
        (after, λ i. get_found T Valid l ms i s' after)
    make_all_refines (c ∷ cs) ms s s' t (v, vs) e =
        let (done, s₁, w, e₁) = >>=-eq-ok (make c) (λ _. make_all cs) s e in
        make_all_refines cs (effect T c ms) s₁ s' (make-effect c ms s s₁ t v w) vs e₁

    -- The rows after an insert or an upsert of the row.
    abbrev pub rows_after : List (Row J) → Row J → Bool → List (Row J)
    rows_after rows row there = if there then rows else rows ++ stored T.columns row ∷ []

    -- With a row that the columns accept, and where the constraints hold of the rows after it: when the
    -- model's id is not there, both an insert and an upsert add the row and give back the id. When it is
    -- there, an insert is an error and an upsert gives back the id, and neither changes anything.
    pub insert-upsert :
        (ms : List A) (a : A) (row : Row J) (s : Session (List (Row J)))
        → Tabled T Valid s.db ms
        → T.to_rowlike a ≡ some row
        → accepts T.columns row ≡ true
        → holds (rows_after s.db row (present T (T.id a) ms)) ≡ true
        → (insert holds T a s ≡ (
            if present T (T.id a) ms
            then (err "db error", s)
            else (ok (T.id a), record s { db = rows_after s.db row (present T (T.id a) ms) })))
          × (upsert holds T a s
              ≡ (ok (T.id a), record s { db = rows_after s.db row (present T (T.id a) ms) }))
    unfolding insert upsert
    insert-upsert ms a row s t c y h =
        let there = Holds-present T Valid l s.db ms t.0 (T.id a) in
        elim (Bool-cases (present T (T.id a) ms)) [
          | inl p ↦
              let kept = upsert_row-present T Valid l holds ms a row s t c p y in
              (ground (arith, there, p), ground (arith, kept, p))
          | inr n ↦ (ground (arith, there, n), ground (arith, there, n))
        ]

-- ===== src/Allocation/Handle/Progress.antt =====
-- allocation.rs: when `deallocate_one` succeeds.
use laas_reflab.Prelude.{
  ℕ, ◌+◌, ◌≡◌, inl, inr, ap, ◌∙◌, arith, true, not, Option, some, List, [], ◌∷◌, ◌==◌, any, select,
  head?, Bool-cases,
}
use laas_reflab.Dal.Transaction.{ok, Session, close, commits}
use laas_reflab.Allocation.Db.{
  ResourceHandle, Allocation, Db, Env, option_eq, row_allowed, get_handle, update_allocation, find,
  replace_row,
}
use laas_reflab.Allocation.Handle.{end_allocation, write_end, deallocate_one}
use laas_reflab.Allocation.Handle.Found.{handle_known}
use laas_reflab.Allocation.Handle.Releases.{first_live, ended_row}

pub get_known :
    (r : ℕ) (hs : List ResourceHandle)
    → any (λ h. h.id == r) hs ≡ true
    → (h : ResourceHandle) × (head? (select (λ h. h.id == r) hs) ≡ some h)
get_known r [] e = absurd (ground arith)
get_known r (h ∷ hs) e = elim (Bool-cases (h.id == r)) [
  | inl here ↦ (h, ground arith)
  | inr there ↦ let (g, found) = get_known r hs (ground arith) in (g, ground arith)
]

module _ (env : Env) (agg : Option ℕ) (r : ℕ) (s : Session Db) where
  abbrev pub others : Allocation → List Allocation
  others a = select (λ b. not (b.id == a.id)) s.db.allocations

  abbrev pub after_release : Allocation → Session Db
  after_release a = record s {
    db = record (s.db) {
      allocations = replace_row (ended_row a (env.clock s.draws)) s.db.allocations;
    };
    draws = s.draws + 1;
  }

  write_end_ok :
      (a : Allocation)
      → handle_known r s.db ≡ true
      → row_allowed s.db (others a) (ended_row a (env.clock s.draws)) ≡ true
      → write_end env r a s ≡ (ok (commits (ok tt)), after_release a)
  unfolding get_handle update_allocation
  write_end_ok a k w = let (h, found) = get_known r s.db.resource_handles k in ground arith

  -- A resource with a handle, whose first live allocation is of the aggregate that the caller names, is
  -- released by `deallocate_one` at the time that it draws, if the constraints of the database admit
  -- the row as ended then.
  pub deallocate_one_succeeds :
      (a : Allocation)
      → first_live r s.db.allocations ≡ some a
      → option_eq a.for_aggregate agg ≡ true
      → handle_known r s.db ≡ true
      → row_allowed s.db (others a) (ended_row a (env.clock s.draws)) ≡ true
      → deallocate_one env agg r s ≡ (ok tt, after_release a)
  unfolding deallocate_one find
  deallocate_one_succeeds a f o k w =
      let wrote = write_end_ok a k w in
      let ended : end_allocation env agg r (some a) s ≡ (ok (commits (ok tt)), after_release a) =
        ground arith in
      ap (close s) (ap (λ x. end_allocation env agg r x s) f ∙ ended)

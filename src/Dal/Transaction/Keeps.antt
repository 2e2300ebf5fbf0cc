-- ===== src/Dal/Transaction/Keeps.antt =====
-- A property of the tables that a computation keeps, whatever it ends in.
use laas_reflab.Prelude.{String, Option, none, some}
use laas_reflab.Dal.Transaction.{
  Res, ok, err, panicked, Session, M, and_then, ◌>>=◌, pure, fail, panics, ok_or, expect,
  unwrap_result, attempt, caught, Ending, commits, rolls_back, drops, close, transaction,
}

module _ {D : Type 0} (P : D → Type 0) where
  pub record Keeps {A : Type 0} (m : M D A) : Type 0 where
    pub apply : (s : Session D) → P s.db → P (m s).1.db

  module _ {A B : Type 0} where
    keeps_and_then :
        (f : A → M D B)
        → ((a : A) → Keeps (f a))
        → (r : Res A × Session D) → P r.1.db
        → P (and_then f r).1.db
    keeps_and_then f k (ok a, s) h = (k a).apply s h
    keeps_and_then f k (err e, s) h = h
    keeps_and_then f k (panicked, s) h = h

    pub Keeps-bind :
        {m : M D A} {f : A → M D B} → Keeps m → ((a : A) → Keeps (f a)) → Keeps (m >>= f)
    Keeps-bind {m} {f} k l = record { apply = λ s h. keeps_and_then f l (m s) (k.apply s h) }

  module _ {A : Type 0} where
    pub Keeps-pure : (a : A) → Keeps (pure a)
    Keeps-pure a = record { apply = λ s h. h }

    pub Keeps-fail : (e : String) → Keeps (fail {A = A} e)
    Keeps-fail e = record { apply = λ s h. h }

    pub Keeps-panics : Keeps (panics {A = A})
    Keeps-panics = record { apply = λ s h. h }

    pub Keeps-ok_or : (e : String) (o : Option A) → Keeps (ok_or e o)
    Keeps-ok_or e none = Keeps-fail e
    Keeps-ok_or e (some a) = Keeps-pure a

    keeps_unwrap : (r : Res A × Session D) → P r.1.db → P (unwrap_result r).1.db
    keeps_unwrap (ok a, s) h = h
    keeps_unwrap (err e, s) h = h
    keeps_unwrap (panicked, s) h = h

    pub Keeps-expect : {m : M D A} → Keeps m → Keeps (expect m)
    Keeps-expect {m} k = record { apply = λ s h. keeps_unwrap (m s) (k.apply s h) }

    keeps_caught : (r : Res A × Session D) → P r.1.db → P (caught r).1.db
    keeps_caught (ok a, s) h = h
    keeps_caught (err e, s) h = h
    keeps_caught (panicked, s) h = h

    pub Keeps-attempt : {m : M D A} → Keeps m → Keeps (attempt m)
    Keeps-attempt {m} k = record { apply = λ s h. keeps_caught (m s) (k.apply s h) }

    keeps_close :
        (s : Session D) (r : Res (Ending A) × Session D) → P s.db → P r.1.db → P (close s r).1.db
    keeps_close s (ok (commits r), s') p q = q
    keeps_close s (ok (rolls_back r), s') p q = q
    keeps_close s (ok (drops r), s') p q = p
    keeps_close s (err e, s') p q = p
    keeps_close s (panicked, s') p q = p

    pub Keeps-transaction : {m : M D (Ending A)} → Keeps m → Keeps (transaction m)
    Keeps-transaction {m} k = record { apply = λ s h. keeps_close s (m s) h (k.apply s h) }

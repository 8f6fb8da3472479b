-- ===== src/Database/Actions.antt =====
-- A service method: it reads and changes the session, and returns a value or raises. The session
-- comes back after a raise too.
use price_checker.Base.{Bool, true, false, Option, none, some, List, [], ◌∷◌, if◌then◌else◌, filter}
use price_checker.Errors.{
  Error, Result, ok, err, integrity_error, pending_rollback, multiple_results,
}
use price_checker.Database.State.{Db, Session, Orm}

abbrev pub Action : Type 0 → Type 0
Action A = Session → Result A × Session

module _ {A : Type 0} where
  abbrev pub pure : A → Action A
  pure a s = (ok a, s)

  abbrev pub raise : Error → Action A
  raise e s = (err e, s)

  abbrev pub or_raise : Option A → Error → Action A
  or_raise none e = raise e
  or_raise (some a) e = pure a

  -- `session.execute` of a query.
  abbrev pub query : (Db → A) → Action A
  query f s = (if s.active then ok (f s.db) else err pending_rollback, s)

  -- `result.scalar_one_or_none()`
  abbrev pub one_or_none : List A → Result (Option A)
  one_or_none [] = ok none
  one_or_none (a ∷ []) = ok (some a)
  one_or_none (a ∷ b ∷ rest) = err multiple_results

  abbrev pub lift : Result A → Action A
  lift r s = (r, s)

-- Shut, so that the rules for `do` blocks apply to a block as it is written.
infixl 5 ◌>>=◌ ◌>>◌
unfoldable pub ◌>>=◌ : {A B : Type 0} → Action A → (A → Action B) → Action B
◌>>=◌ m f s = let (r, s') = m s in elim r [ ok a ↦ f a s' | err e ↦ (err e, s') ]

abbrev pub ◌>>◌ : {A B : Type 0} → Action A → Action B → Action B
m >> k = m >>= λ _. k

-- The only row that passes the test.
abbrev pub query_one : {A : Type 0} → (Db → List A) → (A → Bool) → Action (Option A)
query_one table test = query (λ d. filter test (table d)) >>= λ rows. lift (one_or_none rows)

-- A flush in a session that is active or not, of changes that violate a constraint or not.
abbrev pub flush_if : Orm → (Db → Db) → Bool → Bool → Action (Unit {0})
flush_if orm change true true s = (err integrity_error, orm.failed_flush s)
flush_if orm change true false s = (ok tt, record s { db = change s.db })
flush_if orm change false _ s = (err pending_rollback, s)

-- `session.flush()` with pending changes, where `clash` says that they violate a constraint.
abbrev pub flush : Orm → (Db → Bool) → (Db → Db) → Action (Unit {0})
flush orm clash change s = flush_if orm change s.active (clash s.db) s

abbrev pub write_if : (Db → Db) → Bool → Action (Unit {0})
write_if change true s = (ok tt, record s { db = change s.db })
write_if change false s = (err pending_rollback, s)

-- `session.flush()` with pending changes that violate no constraint.
abbrev pub write : (Db → Db) → Action (Unit {0})
write change s = write_if change s.active s

-- `await session.rollback()`
abbrev pub roll_back : Orm → Action (Unit {0})
roll_back orm s = (ok tt, orm.rollback s)

-- `try: body except IntegrityError: handler`
abbrev pub except_integrity : {A : Type 0} → Action A → Action A → Action A
except_integrity body handler s =
    let (r, s') = body s in
    elim r [
      | ok a ↦ (ok a, s')
      | err e ↦ elim e [ integrity_error ↦ handler s' | other ↦ (err other, s') ]
    ]

-- ===== src/Database/Invariants.antt =====
-- Invariants of the session, proved along a `do` block.
use price_checker.Base.{
  Bool, true, false, Option, none, some, List, ◌≡◌, refl, ap, sym, subst, arith,
}
use price_checker.Errors.{Error, Result, ok, err, integrity_error, pending_rollback}
use price_checker.Database.State.{Db, Session, Orm}
use price_checker.Database.Actions.{
  Action, or_raise, query, query_one, ◌>>=◌, ◌>>◌, flush, flush_if, write, write_if,
}

-- Whatever the action does, also where it raises, a session with `P` is left with `P`.
abbrev pub Keeps {ℓ} : {A : Type 0} → (Session → Type ℓ) → Action A → Type ℓ
Keeps P m = (s : Session) → P s → P (m s).1

-- An action that leaves the session as it is.
abbrev pub IsReadOnly : {A : Type 0} → Action A → Type 0
IsReadOnly m = (s : Session) → (m s).1 ≡ s

module _ {A B : Type 0} where
  bind_cases {ℓ} :
      (P : Session → Type ℓ) (f : A → Action B) (r : Result A) (s : Session)
      → P s
      → ((a : A) → r ≡ ok a → P (f a s).1)
      → P (((λ (t : Session). (r, t)) >>= f) s).1
  unfolding ◌>>=◌
  bind_cases P f (ok a) s p k = k a refl
  bind_cases P f (err e) s p k = p

  -- After a first action that keeps `P`: the second one, from where the first one ended.
  pub bind_then {ℓ} :
      (P : Session → Type ℓ) (m : Action A) (f : A → Action B) (s : Session)
      → P (m s).1
      → ((a : A) → (m s).0 ≡ ok a → P (f a (m s).1).1)
      → P ((m >>= f) s).1
  unfolding ◌>>=◌
  bind_then P m f s p k = bind_cases P f (m s).0 (m s).1 p k

  -- After a first action that only reads: the second one, with what was read.
  pub read_then {ℓ} :
      (P : Session → Type ℓ) (m : Action A) (f : A → Action B) (s : Session)
      → IsReadOnly m
      → P s
      → ((a : A) → (m s).0 ≡ ok a → P (f a s).1)
      → P ((m >>= f) s).1
  read_then P m f s same p k =
      bind_then P m f s (subst P (sym (same s)) p)
        (λ a e. subst (λ t. P (f a t).1) (sym (same s)) (k a e))

module _ {A : Type 0} where
  pub query-IsReadOnly : (f : Db → A) → IsReadOnly (query f)
  query-IsReadOnly f s = ground arith

  pub query_ok : (f : Db → A) (s : Session) (a : A) → (query f s).0 ≡ ok a → a ≡ f s.db
  query_ok f s a h = ground arith

  pub query_one-IsReadOnly :
      (table : Db → List A) (test : A → Bool) → IsReadOnly (query_one table test)
  unfolding ◌>>=◌
  query_one-IsReadOnly table test s = ground arith

  pub or_raise-IsReadOnly : (o : Option A) (e : Error) → IsReadOnly (or_raise o e)
  or_raise-IsReadOnly none e s = refl
  or_raise-IsReadOnly (some a) e s = refl

  pub bind-IsReadOnly :
      {B : Type 0} (m : Action B) (f : B → Action A)
      → IsReadOnly m
      → ((b : B) → IsReadOnly (f b))
      → IsReadOnly (m >>= f)
  bind-IsReadOnly m f hm hf s = read_then (λ t. t ≡ s) m f s hm refl (λ b e. hf b s)

module _ {A B : Type 0} where
  to_cases {ℓ} :
      (Q : Result B → Session → Type ℓ) (f : A → Action B) (r : Result A) (s : Session)
      → ((e : Error) → Q (err e) s)
      → ((a : A) → r ≡ ok a → Q (f a s).0 (f a s).1)
      → let m : Action A = λ t. (r, t) in Q ((m >>= f) s).0 ((m >>= f) s).1
  unfolding ◌>>=◌
  to_cases Q f (ok a) s fails k = k a refl
  to_cases Q f (err e) s fails k = fails e

  run_then {ℓ} :
      (Q : Result B → Session → Type ℓ) (m : Action A) (f : A → Action B) (s : Session)
      → ((e : Error) → Q (err e) (m s).1)
      → ((a : A) → (m s).0 ≡ ok a → Q (f a (m s).1).0 (f a (m s).1).1)
      → Q ((m >>= f) s).0 ((m >>= f) s).1
  unfolding ◌>>=◌
  run_then Q m f s fails k = to_cases Q f (m s).0 (m s).1 fails k

  -- What a block that begins with a reading action returns and leaves: by the rest of the block,
  -- or an exception and the session as it was.
  pub read_to {ℓ} :
      (Q : Result B → Session → Type ℓ) (m : Action A) (f : A → Action B) (s : Session)
      → IsReadOnly m
      → ((e : Error) → Q (err e) s)
      → ((a : A) → (m s).0 ≡ ok a → Q (f a s).0 (f a s).1)
      → Q ((m >>= f) s).0 ((m >>= f) s).1
  read_to Q m f s same fails k =
      run_then Q m f s (λ e. subst (Q (err e)) (sym (same s)) (fails e))
        (λ a h. subst (λ t. Q (f a t).0 (f a t).1) (sym (same s)) (k a h))

module _ {A : Type 0} where
  write_if_to {ℓ} :
      (Q : Result A → Session → Type ℓ) (change : Db → Db) (k : Action A) (b : Bool) (s : Session)
      → ((e : Error) → Q (err e) s)
      → (b ≡ true → Q (k (record s { db = change s.db })).0 (k (record s { db = change s.db })).1)
      → Q ((write_if change b >> k) s).0 ((write_if change b >> k) s).1
  unfolding ◌>>=◌
  write_if_to Q change k true s fails done = done refl
  write_if_to Q change k false s fails done = fails pending_rollback

  -- A block that begins with a flush of allowed changes.
  pub write_to {ℓ} :
      (Q : Result A → Session → Type ℓ) (change : Db → Db) (k : Action A) (s : Session)
      → ((e : Error) → Q (err e) s)
      → (s.active ≡ true
          → Q (k (record s { db = change s.db })).0 (k (record s { db = change s.db })).1)
      → Q ((write change >> k) s).0 ((write change >> k) s).1
  unfolding ◌>>=◌
  write_to Q change k s fails done = write_if_to Q change k s.active s fails done

  flush_if_to {ℓ} :
      (orm : Orm) (Q : Result A → Session → Type ℓ) (change : Db → Db) (k : Action A) (b c : Bool)
      (s : Session)
      → ((e : Error) → Q (err e) s)
      → (b ≡ true → c ≡ true → Q (err integrity_error) (orm.failed_flush s))
      → (b ≡ true
          → c ≡ false
          → Q (k (record s { db = change s.db })).0 (k (record s { db = change s.db })).1)
      → Q ((flush_if orm change b c >> k) s).0 ((flush_if orm change b c >> k) s).1
  unfolding ◌>>=◌
  flush_if_to orm Q change k true true s fails clash done = clash refl refl
  flush_if_to orm Q change k true false s fails clash done = done refl refl
  flush_if_to orm Q change k false c s fails clash done = fails pending_rollback

  -- A block that begins with a flush that the database may refuse.
  pub flush_to {ℓ} :
      (orm : Orm) (Q : Result A → Session → Type ℓ) (clash : Db → Bool) (change : Db → Db)
      (k : Action A) (s : Session)
      → ((e : Error) → Q (err e) s)
      → (s.active ≡ true → clash s.db ≡ true → Q (err integrity_error) (orm.failed_flush s))
      → (s.active ≡ true
          → clash s.db ≡ false
          → Q (k (record s { db = change s.db })).0 (k (record s { db = change s.db })).1)
      → Q ((flush orm clash change >> k) s).0 ((flush orm clash change >> k) s).1
  unfolding ◌>>=◌
  flush_to orm Q clash change k s fails refused done =
      flush_if_to orm Q change k s.active (clash s.db) s fails refused done

-- A block whose first action returns goes on from where that one ended.
pub bind_ok :
    {A B : Type 0} (m : Action A) (f : A → Action B) {s s' : Session} {a : A}
    → m s ≡ (ok a, s')
    → (m >>= f) s ≡ f a s'
unfolding ◌>>=◌
bind_ok m f {s} e = ap (λ r. ((λ _. r) >>= f) s) e

-- A flush of allowed changes in a session that takes statements.
pub write_ok :
    (change : Db → Db) (s : Session)
    → s.active ≡ true
    → write change s ≡ (ok tt, record s { db = change s.db })
write_ok change s e = rw e refl

-- Where a block returns, its first action did, and so did the rest.
pub bind-eq-ok :
    {A B : Type 0} (m : Action A) (f : A → Action B) (s : Session) {b : B} {s' : Session}
    → (m >>= f) s ≡ (ok b, s')
    → (a : A) × (t : Session) × (m s ≡ (ok a, t)) × (f a t ≡ (ok b, s'))
unfolding ◌>>=◌
bind-eq-ok {A} m f s {b} {s'} e = go (m s).0 (m s).1 e
  where
    go :
        (r : Result A) (t : Session)
        → ((λ _. (r, t)) >>= f) s ≡ (ok b, s')
        → (a : A) × (u : Session) × (◌≡◌ {A = Result A × Session} (r, t) (ok a, u))
          × (f a u ≡ (ok b, s'))
    go (ok a) t e = (a, t, refl, e)
    go (err x) t e = absurd (cc e)

module _ {A : Type 0} where
  pub query-eq-ok :
      (f : Db → A) (s : Session) {a : A} {t : Session}
      → query f s ≡ (ok a, t)
      → (s.active ≡ true) × (a ≡ f s.db) × (t ≡ s)
  query-eq-ok f s e = ground arith

  pub or_raise-eq-ok :
      (o : Option A) (x : Error) (s : Session) {a : A} {t : Session}
      → or_raise o x s ≡ (ok a, t)
      → (o ≡ some a) × (t ≡ s)
  or_raise-eq-ok none x s e = absurd (cc e)
  or_raise-eq-ok (some a) x s e = (cc e, cc e)

pub write-eq-ok :
    (change : Db → Db) (s : Session) {x : Unit {0}} {t : Session}
    → write change s ≡ (ok x, t)
    → t ≡ record s { db = change s.db }
write-eq-ok change s e = ground arith

pub flush-eq-ok :
    (orm : Orm) (clash : Db → Bool) (change : Db → Db) (s : Session) {x : Unit {0}} {t : Session}
    → flush orm clash change s ≡ (ok x, t)
    → t ≡ record s { db = change s.db }
flush-eq-ok orm clash change s {x} {t} e = go s.active (clash s.db) e
  where
    go : (a c : Bool) → flush_if orm change a c s ≡ (ok x, t) → t ≡ record s { db = change s.db }
    go true true e = absurd (cc e)
    go true false e = cc e
    go false c e = absurd (cc e)

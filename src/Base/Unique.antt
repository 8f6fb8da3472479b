-- ===== src/Base/Unique.antt =====
-- Tables with a unique key: pairwise distinct rows, and what a change of one row keeps.
use Prim.Native.Nat.{ℕ}
use mathlib.Core.Path.{◌≡◌, refl, subst}
use mathlib.Core.Logic.{inl, inr}
use mathlib.Core.Bool.{Bool, true, false, not, ◌&&◌}
use mathlib.Core.List.{List, [], ◌∷◌, ◌++◌}
use native.Mathlib.Omega.{arith}
use price_checker.Base.Tests.{◌==◌, Bool-cases}
use price_checker.Base.Lists.{All, All-map, filter, any, update_where}

module _ {ℓ} {A : Type ℓ} (same : A → A → Bool) where
  -- No two rows are the same.
  abbrev pub Distinct : List A → Type ℓ
  Distinct [] = Unit
  Distinct (x ∷ xs) = All (λ y. same x y ≡ false) xs × Distinct xs

  append_one :
      (x y : A) (xs : List A)
      → All (λ z. same x z ≡ false) xs
      → same x y ≡ false
      → All (λ z. same x z ≡ false) (xs ++ y ∷ [])
  append_one x y [] h e = (e, tt)
  append_one x y (z ∷ xs) h e = (h.0, append_one x y xs h.1 e)

  -- A row that is like none of the others can be added.
  pub Distinct-append :
      (x : A) (xs : List A) → any (λ y. same y x) xs ≡ false → Distinct xs → Distinct (xs ++ x ∷ [])
  Distinct-append x [] h d = (tt, tt)
  Distinct-append x (y ∷ xs) h d =
      (append_one y x xs d.0 (ground arith), Distinct-append x xs (ground arith) d.1)

module _ {ℓ} {A : Type ℓ} where
  pub any-All : (p : A → Bool) (xs : List A) → any p xs ≡ false → All (λ x. p x ≡ false) xs
  any-All p [] h = tt
  any-All p (x ∷ xs) h = ground (arith, any-All p xs)

  pub All-any : (p : A → Bool) (xs : List A) → All (λ x. p x ≡ false) xs → any p xs ≡ false
  All-any p [] h = refl
  All-any p (x ∷ xs) h = ground (arith, All-any p xs h.1)

  -- What holds of all rows holds of the first that a query returns.
  pub filter-head {κ} :
      (P : A → Type κ) (p : A → Bool) (xs rest : List A) (x : A)
      → filter p xs ≡ x ∷ rest
      → All P xs
      → P x
  filter-head P p [] rest x e h = absurd (cc e)
  filter-head P p (y ∷ xs) rest x e h = elim (Bool-cases (p y)) [
    | inl t ↦ subst P (cc (rw t at e)) h.0
    | inr f ↦ filter-head P p xs rest x (rw f at e) h.1
  ]

  -- A change of rows outside a view leaves the view as it is.
  pub filter-update_where :
      (q p : A → Bool) (f : A → A) (xs : List A)
      → All (λ x. p x ≡ true → (q x ≡ false) × (q (f x) ≡ false)) xs
      → filter q (update_where p f xs) ≡ filter q xs
  filter-update_where q p f [] h = refl
  filter-update_where q p f (x ∷ xs) h = elim (Bool-cases (p x)) [
    | inl t ↦ ground (arith, filter-update_where q p f xs h.1, h.0 t)
    | inr e ↦ ground (arith, filter-update_where q p f xs h.1)
  ]

module _ {ℓ} {A : Type ℓ} (id : A → ℕ) where
  abbrev pub same_id : A → A → Bool
  same_id x y = id x == id y

  -- With distinct ids, a row with the id of the one found is the one found.
  pub found_by_id :
      (p : A → Bool) (xs rest : List A) (r : A)
      → Distinct same_id xs
      → filter p xs ≡ r ∷ rest
      → All (λ x. (id x == id r) ≡ true → x ≡ r) xs
  found_by_id p [] rest r d e = tt
  found_by_id p (y ∷ ys) rest r d e = elim (Bool-cases (p y)) [
    | inl t ↦
        let same : y ≡ r = cc (rw t at e) in (λ _. same, All-map _ _ ys (λ z h g. ground arith) d.0)
    | inr f ↦ (
      λ g. ground (arith, filter-head (λ z. (id y == id z) ≡ false) p ys rest r (rw f at e) d.0),
      found_by_id p ys rest r d.1 (rw f at e),
    )
  ]

module _ {ℓ} {A : Type ℓ} where
  pub All-update_where {κ} :
      (P : A → Type κ) (p : A → Bool) (q : A) (xs : List A)
      → P q
      → All P xs
      → All P (update_where p (λ _. q) xs)
  All-update_where P p q [] h a = tt
  All-update_where P p q (x ∷ xs) h a = elim (Bool-cases (p x)) [
    | inl t ↦ rw t (h, All-update_where P p q xs h a.1)
    | inr f ↦ rw f (a.0, All-update_where P p q xs h a.1)
  ]

  update_where_none :
      (p : A → Bool) (f : A → A) (xs : List A)
      → All (λ x. p x ≡ false) xs
      → update_where p f xs ≡ xs
  update_where_none p f [] h = refl
  update_where_none p f (x ∷ xs) h = ground (arith, update_where_none p f xs h.1)

  All-both {κ μ} :
      (P : A → Type κ) (Q : A → Type μ) (xs : List A)
      → All P xs
      → All Q xs
      → All (λ x. P x × Q x) xs
  All-both P Q [] h k = tt
  All-both P Q (x ∷ xs) h k = ((h.0, k.0), All-both P Q xs h.1 k.1)

module _ {ℓ} {A : Type ℓ} (id : A → ℕ) (same : A → A → Bool)
    (same_sym : (x y : A) → same x y ≡ false → same y x ≡ false) where
  -- A row is replaced by one with its id that is like none of the others.
  pub replace-Distinct :
      (q : A) (xs : List A)
      → Distinct (same_id id) xs
      → Distinct same xs
      → All (λ r. (not (id r == id q) && same r q) ≡ false) xs
      → Distinct (same_id id) (update_where (λ r. id r == id q) (λ _. q) xs)
        × Distinct same (update_where (λ r. id r == id q) (λ _. q) xs)
  replace-Distinct q [] i d n = (tt, tt)
  replace-Distinct q (x ∷ xs) i d n = elim (Bool-cases (id x == id q)) [
    | inl t ↦
        let others : All (λ y. (id y == id q) ≡ false) xs =
          All-map _ _ xs (λ y h. ground arith) i.0 in
        rw (t, update_where_none (λ r. id r == id q) (λ _. q) xs others)
          (
            (All-map _ _ xs (λ y h. ground arith) i.0, i.1),
            (All-map _ _ xs (λ y h. same_sym y q (ground arith)) (All-both _ _ xs others n.1), d.1),
          )
    | inr f ↦
        let (ids, rest) = replace-Distinct q xs i.1 d.1 n.1 in
        rw f (
          (All-update_where _ _ q xs f i.0, ids),
          (All-update_where _ _ q xs (ground arith) d.0, rest),
        )
  ]

module _ {ℓ} {A : Type ℓ} (p : A → Bool) where
  pub filter_none : (xs : List A) → filter p xs ≡ [] → All (λ x. p x ≡ false) xs
  filter_none [] e = tt
  filter_none (x ∷ xs) e = elim (Bool-cases (p x)) [
    | inl t ↦ absurd (cc (rw t at e))
    | inr f ↦ (f, filter_none xs (rw f at e))
  ]

  pub filter_of_none : (xs : List A) → All (λ x. p x ≡ false) xs → filter p xs ≡ []
  filter_of_none [] h = refl
  filter_of_none (x ∷ xs) h = rw h.0 (filter_of_none xs h.1)

  -- The only row that a query returns is the only one that passes its test.
  pub filter_single :
      (xs : List A) (r : A) → filter p xs ≡ r ∷ [] → All (λ x. p x ≡ true → x ≡ r) xs
  filter_single [] r e = tt
  filter_single (x ∷ xs) r e = elim (Bool-cases (p x)) [
    | inl t ↦ (
      (λ _. cc (rw t at e)),
      All-map _ _ xs (λ y f g. ground arith) (filter_none xs (cc (rw t at e))),
    )
    | inr f ↦ ((λ g. ground arith), filter_single xs r (rw f at e))
  ]

module _ {ℓ} {A : Type ℓ} (id : A → ℕ) (p g : A → Bool) (q r : A) (same : id q ≡ id r) where
  -- The row that a query returned is replaced by one that a narrower query refuses.
  pub replaced_none :
      (xs : List A)
      → ((x : A) → p x ≡ false → g x ≡ false)
      → g q ≡ false
      → filter p xs ≡ r ∷ []
      → filter g (update_where (λ x. id x == id q) (λ _. q) xs) ≡ []
  replaced_none xs narrow refused e = go xs (filter_single p xs r e)
    where
      go :
          (xs : List A)
          → All (λ x. p x ≡ true → x ≡ r) xs
          → filter g (update_where (λ x. id x == id q) (λ _. q) xs) ≡ []
      go [] h = refl
      go (x ∷ xs) h = elim (Bool-cases (p x)) [
        | inl t ↦ ground (arith, h.0 t, go xs h.1)
        | inr f ↦ ground (arith, narrow x f, go xs h.1)
      ]

  -- By one that a narrower query returns: with distinct ids it is returned alone.
  pub replaced_one :
      (xs : List A)
      → Distinct (same_id id) xs
      → ((x : A) → p x ≡ false → g x ≡ false)
      → g q ≡ true
      → filter p xs ≡ r ∷ []
      → filter g (update_where (λ x. id x == id q) (λ _. q) xs) ≡ q ∷ []
  replaced_one [] d narrow hit e = absurd (cc e)
  replaced_one (x ∷ xs) d narrow hit e = elim (Bool-cases (p x)) [
    | inl t ↦
        let x_r : x ≡ r = cc (rw t at e) in
        let rest : filter p xs ≡ [] = cc (rw t at e) in
        let others : All (λ y. (id y == id q) ≡ false) xs =
          All-map _ _ xs (λ y h. ground arith) d.0 in
        let quiet =
          filter_of_none g xs (All-map _ _ xs (λ y f. narrow y f) (filter_none p xs rest)) in
        ground (arith, quiet, update_where_none (λ y. id y == id q) (λ _. q) xs others)
    | inr f ↦
        let apart : (id x == id q) ≡ false =
          let h = filter-head (λ z. (id x == id z) ≡ false) p xs [] r (rw f at e) d.0 in
          ground arith in
        ground (arith, narrow x f, replaced_one xs d.1 narrow hit (rw f at e))
  ]

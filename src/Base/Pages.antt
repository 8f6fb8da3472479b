-- ===== src/Base/Pages.antt =====
-- `LIMIT` and `OFFSET`: pages of a list.
use Prim.Native.Nat.{ℕ, zero, suc, ◌+◌, ◌≤◌}
use mathlib.Core.Path.{◌≡◌, refl, ap}
use mathlib.Core.Bool.{Bool}
use mathlib.Core.List.{List, [], ◌∷◌, ◌++◌}
use native.Mathlib.Omega.{arith}
use native.Mathlib.Nat.{zero-add, suc-add}
use price_checker.Base.Lists.{All, take, drop, length}
use price_checker.Base.Sort.{IsSorted}

module _ {ℓ} {A : Type ℓ} where
  take-All {κ} : (P : A → Type κ) (n : ℕ) (xs : List A) → All P xs → All P (take n xs)
  take-All P zero xs h = tt
  take-All P (suc n) [] h = tt
  take-All P (suc n) (x ∷ xs) h = (h.0, take-All P n xs h.1)

  drop-All {κ} : (P : A → Type κ) (n : ℕ) (xs : List A) → All P xs → All P (drop n xs)
  drop-All P zero xs h = h
  drop-All P (suc n) [] h = tt
  drop-All P (suc n) (x ∷ xs) h = drop-All P n xs h.1

  -- What holds of every entry holds of every entry of a page.
  pub page-All {κ} :
      (P : A → Type κ) (limit offset : ℕ) (xs : List A)
      → All P xs
      → All P (take limit (drop offset xs))
  page-All P limit offset xs h = take-All P limit _ (drop-All P offset xs h)

  take-IsSorted :
      (le : A → A → Bool) (n : ℕ) (xs : List A) → IsSorted le xs → IsSorted le (take n xs)
  take-IsSorted le zero xs h = tt
  take-IsSorted le (suc n) [] h = tt
  take-IsSorted le (suc n) (x ∷ xs) h = (take-All _ n xs h.0, take-IsSorted le n xs h.1)

  drop-IsSorted :
      (le : A → A → Bool) (n : ℕ) (xs : List A) → IsSorted le xs → IsSorted le (drop n xs)
  drop-IsSorted le zero xs h = h
  drop-IsSorted le (suc n) [] h = tt
  drop-IsSorted le (suc n) (x ∷ xs) h = drop-IsSorted le n xs h.1

  -- A page of a sorted list is sorted.
  pub page-IsSorted :
      (le : A → A → Bool) (limit offset : ℕ) (xs : List A)
      → IsSorted le xs
      → IsSorted le (take limit (drop offset xs))
  page-IsSorted le limit offset xs h = take-IsSorted le limit _ (drop-IsSorted le offset xs h)

  pub length-take-le : (n : ℕ) (xs : List A) → length (take n xs) ≤ n
  length-take-le zero xs = omega arith
  length-take-le (suc n) [] = omega arith
  length-take-le (suc n) (x ∷ xs) = omega (arith, length-take-le n xs)

  nothing : (o l : ℕ) (xs : List A) → xs ≡ [] → take l (drop o xs) ≡ []
  nothing zero zero [] h = refl
  nothing zero (suc l) [] h = refl
  nothing (suc o) zero [] h = refl
  nothing (suc o) (suc l) [] h = refl
  nothing o l (x ∷ xs) h = absurd (cc h)

  take_split : (l m : ℕ) (xs : List A) → take l xs ++ take m (drop l xs) ≡ take (l + m) xs
  take_split zero m xs = rw (zero-add m) refl
  take_split (suc l) m [] = rw (suc-add l m) (nothing (suc l) m [] refl)
  take_split (suc l) m (x ∷ xs) = rw (suc-add l m) (ap (λ ys. x ∷ ys) (take_split l m xs))

  take_all : (n : ℕ) (xs : List A) → length xs ≤ n → take n xs ≡ xs
  take_all zero [] h = refl
  take_all zero (x ∷ xs) h = absurd (omega (arith, h))
  take_all (suc n) [] h = refl
  take_all (suc n) (x ∷ xs) h = ap (λ ys. x ∷ ys) (take_all n xs (omega (arith, h)))

  -- Two adjacent pages that have room for all entries are the list.
  pub two_pages : (l m : ℕ) (xs : List A) → length xs ≤ l + m → take l xs ++ take m (drop l xs) ≡ xs
  two_pages l m xs h = rw (take_split l m xs) (take_all (l + m) xs h)

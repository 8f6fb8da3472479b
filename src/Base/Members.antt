-- ===== src/Base/Members.antt =====
-- Entries of lists, with the place kept, and `concat_map`.
use mathlib.Core.Path.{◌≡◌, refl, ap, subst}
use mathlib.Core.Logic.{◌⊎◌, inl, inr}
use mathlib.Core.List.{List, [], ◌∷◌, ◌++◌, map}

abbrev pub concat_map : {A B : Type 0} → (A → List B) → List A → List B
concat_map f [] = []
concat_map f (x ∷ xs) = f x ++ concat_map f xs

-- An entry of a list.
abbrev pub In : {A : Type 0} → A → List A → Type 0
In x [] = ⊥
In x (y ∷ ys) = (x ≡ y) ⊎ In x ys

module _ {A : Type 0} where
  pub In-append_left : (x : A) (xs ys : List A) → In x xs → In x (xs ++ ys)
  In-append_left x [] ys h = elim h [ ]
  In-append_left x (y ∷ xs) ys (inl e) = inl e
  In-append_left x (y ∷ xs) ys (inr h) = inr (In-append_left x xs ys h)

  pub In-append_right : (x : A) (xs ys : List A) → In x ys → In x (xs ++ ys)
  In-append_right x [] ys h = h
  In-append_right x (y ∷ xs) ys h = inr (In-append_right x xs ys h)

  pub In-append : (x : A) (xs ys : List A) → In x (xs ++ ys) → In x xs ⊎ In x ys
  In-append x [] ys h = inr h
  In-append x (y ∷ xs) ys (inl e) = inl (inl e)
  In-append x (y ∷ xs) ys (inr h) = elim (In-append x xs ys h) [
    | inl l ↦ inl (inr l)
    | inr r ↦ inr r
  ]

module _ {A B : Type 0} where
  pub In-concat_map :
      (f : A → List B) (xs : List A) (y : B)
      → In y (concat_map f xs)
      → (x : A) × In x xs × In y (f x)
  In-concat_map f [] y h = elim h [ ]
  In-concat_map f (x ∷ xs) y h = elim (In-append y (f x) (concat_map f xs) h) [
    | inl l ↦ (x, inl refl, l)
    | inr r ↦ (let (z, i, j) = In-concat_map f xs y r in (z, inr i, j))
  ]

  pub concat_map-In :
      (f : A → List B) (xs : List A) (x : A) (y : B) → In x xs → In y (f x) → In y (concat_map f xs)
  concat_map-In f [] x y i h = elim i [ ]
  concat_map-In f (z ∷ xs) x y (inl e) h =
      In-append_left y (f z) (concat_map f xs) (subst (λ a. In y (f a)) e h)
  concat_map-In f (z ∷ xs) x y (inr i) h =
      In-append_right y (f z) (concat_map f xs) (concat_map-In f xs x y i h)

  pub In-map : (f : A → B) (xs : List A) (y : B) → In y (map f xs) → (x : A) × In x xs × (y ≡ f x)
  In-map f [] y h = elim h [ ]
  In-map f (x ∷ xs) y (inl e) = (x, inl refl, e)
  In-map f (x ∷ xs) y (inr h) = let (z, i, e) = In-map f xs y h in (z, inr i, e)

  pub map-In : (f : A → B) (xs : List A) (x : A) → In x xs → In (f x) (map f xs)
  map-In f [] x h = elim h [ ]
  map-In f (y ∷ xs) x (inl e) = inl (ap f e)
  map-In f (y ∷ xs) x (inr h) = inr (map-In f xs x h)

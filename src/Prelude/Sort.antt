-- ===== src/Prelude/Sort.antt =====
-- `sort_by` is stable: insertion sort by the test that says whether one value may stand before
-- another computes the same list.
use mathlib.Core.Bool.{Bool, true}
use mathlib.Core.Path.{◌≡◌, refl}
use mathlib.Core.List.{List, [], ◌∷◌}
use mathlib.Core.List.{Perm}
use mathlib.Core.List.Perm
use phase_golem.Prelude.Tests.{if◌then◌else◌, Bool-cases}
use phase_golem.Prelude.Lists.{All, filter}
use mathlib.Core.Logic.{◌⊎◌, inl, inr}
use native.Mathlib.Omega.{arith}

module _ {ℓ} {A : Type ℓ} (le : A → A → Bool) where
  abbrev pub insert_sorted : A → List A → List A
  insert_sorted x [] = x ∷ []
  insert_sorted x (y ∷ ys) =
      let later = insert_sorted x ys in if le x y then x ∷ y ∷ ys else y ∷ later

  abbrev pub sort_by : List A → List A
  sort_by [] = []
  sort_by (x ∷ xs) = insert_sorted x (sort_by xs)

  -- Each value may stand before all that follow it.
  abbrev pub IsSortedBy : List A → Type ℓ
  IsSortedBy [] = Unit
  IsSortedBy (x ∷ xs) = All (λ y. le x y ≡ true) xs × IsSortedBy xs

  insert_sorted-perm : (x : A) (ys : List A) → Perm (insert_sorted x ys) (x ∷ ys)
  insert_sorted-perm x [] = Perm.rfl
  insert_sorted-perm x (y ∷ ys) = elim (Bool-cases (le x y)) [
    | inl e ↦ rw e Perm.rfl
    | inr e ↦ rw e (Perm.trans (Perm.cons y (insert_sorted-perm x ys)) (Perm.swap x y ys))
  ]

  pub sort_by-perm : (xs : List A) → Perm (sort_by xs) xs
  sort_by-perm [] = Perm.rfl
  sort_by-perm (x ∷ xs) =
      Perm.trans (insert_sorted-perm x (sort_by xs)) (Perm.cons x (sort_by-perm xs))

  module _ (total : (x y : A) → (le x y ≡ true) ⊎ (le y x ≡ true))
      (trans : (x y z : A) → le x y ≡ true → le y z ≡ true → le x z ≡ true) where
    All-insert :
        (x : A) (y : A) (ys : List A)
        → le y x ≡ true
        → All (λ z. le y z ≡ true) ys
        → All (λ z. le y z ≡ true) (insert_sorted x ys)
    All-insert x y [] e h = (e, tt)
    All-insert x y (z ∷ zs) e h = elim (Bool-cases (le x z)) [
      | inl c ↦ rw c (e, h)
      | inr c ↦ rw c (h.0, All-insert x y zs e h.1)
    ]

    All-trans :
        (x y : A) (ys : List A)
        → le x y ≡ true
        → All (λ z. le y z ≡ true) ys
        → All (λ z. le x z ≡ true) ys
    All-trans x y [] e h = tt
    All-trans x y (z ∷ zs) e h = (trans x y z e h.0, All-trans x y zs e h.1)

    insert_sorted-IsSortedBy :
        (x : A) (ys : List A) → IsSortedBy ys → IsSortedBy (insert_sorted x ys)
    insert_sorted-IsSortedBy x [] h = (tt, tt)
    insert_sorted-IsSortedBy x (y ∷ ys) h = elim (Bool-cases (le x y)) [
      | inl e ↦ rw e ((e, All-trans x y ys e h.0), h)
      | inr e ↦ rw e (
        All-insert x y ys (elim (total x y) [ inl k ↦ cc | inr k ↦ k ]) h.0,
        insert_sorted-IsSortedBy x ys h.1,
      )
    ]

    pub sort_by-IsSortedBy : (xs : List A) → IsSortedBy (sort_by xs)
    sort_by-IsSortedBy [] = tt
    sort_by-IsSortedBy (x ∷ xs) = insert_sorted-IsSortedBy x (sort_by xs) (sort_by-IsSortedBy xs)

  -- Values that agree on the order keep their places: of those that `p` picks out, all of which may
  -- stand before each other, the sorted list has the same list.
  insert_sorted-filter :
      (p : A → Bool) (x : A) (ys : List A)
      → ((y : A) → p x ≡ true → p y ≡ true → le x y ≡ true)
      → filter p (insert_sorted x ys) ≡ filter p (x ∷ ys)
  insert_sorted-filter p x [] h = refl
  insert_sorted-filter p x (y ∷ ys) h = ground (arith, h y, insert_sorted-filter p x ys h)

  pub sort_by-stable :
      (p : A → Bool) (xs : List A)
      → ((x y : A) → p x ≡ true → p y ≡ true → le x y ≡ true)
      → filter p (sort_by xs) ≡ filter p xs
  sort_by-stable p [] h = refl
  sort_by-stable p (x ∷ xs) h =
      ground (arith, insert_sorted-filter p x (sort_by xs) (h x), sort_by-stable p xs h)

  insert_sorted-All {κ} :
      (P : A → Type κ) (x : A) (ys : List A) → P x → All P ys → All P (insert_sorted x ys)
  insert_sorted-All P x [] px h = (px, tt)
  insert_sorted-All P x (y ∷ ys) px h = elim (Bool-cases (le x y)) [
    | inl e ↦ rw e (px, h)
    | inr e ↦ rw e (h.0, insert_sorted-All P x ys px h.1)
  ]

  pub sort_by-All {κ} : (P : A → Type κ) (xs : List A) → All P xs → All P (sort_by xs)
  sort_by-All P [] h = tt
  sort_by-All P (x ∷ xs) h = insert_sorted-All P x (sort_by xs) h.0 (sort_by-All P xs h.1)

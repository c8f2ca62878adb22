-- ===== src/Prelude/Sort.antt =====
-- Sorting by a Boolean comparison, and what a sorted list promises.
use Prim.Native.Nat.{ℕ, ◌+◌}
use mathlib.Core.Path.{◌≡◌, refl, ap, ◌∙◌}
use mathlib.Core.Bool.{Bool, true, false, ◌&&◌, Bool-set}
use native.Mathlib.Nat.{ℕ_set}
use native.Mathlib.Omega.{arith}
use mathlib.Core.List.{List, [], ◌∷◌, Perm, Permᴰ}
use mathlib.Core.List.Perm
use mathlib.Core.Logic.{inl, inr, ∥∥₁_elim}
use debuginfod_pwndbg_re.Prelude.Tests.{if◌then◌else◌, Bool-cases}
use debuginfod_pwndbg_re.Prelude.Lists.{All, All-map}

module _ {ℓ} {A : Type ℓ} (before : A → A → Bool) where
  unfoldable pub insert_sorted : A → List A → List A
  insert_sorted x [] = x ∷ []
  insert_sorted x (y ∷ ys) = if before y x then y ∷ insert_sorted x ys else x ∷ y ∷ ys

  unfoldable pub sort : List A → List A
  sort [] = []
  sort (x ∷ xs) = insert_sorted x (sort xs)

  -- No element comes before one that stands left of it.
  abbrev pub IsSorted : List A → Type 0
  IsSorted [] = Unit
  IsSorted (x ∷ xs) = All (λ y. before y x ≡ false) xs × IsSorted xs

  insert_sorted-perm : (x : A) (ys : List A) → Perm (insert_sorted x ys) (x ∷ ys)
  unfolding insert_sorted
  insert_sorted-perm x [] = Perm.refl (x ∷ [])
  insert_sorted-perm x (y ∷ ys) = elim (Bool-cases (before y x)) [
    | inl h ↦ rw h (Perm.trans (Perm.cons y (insert_sorted-perm x ys)) (Perm.swap x y ys))
    | inr h ↦ rw h (Perm.refl (x ∷ y ∷ ys))
  ]

  pub sort-perm : (xs : List A) → Perm (sort xs) xs
  unfolding sort
  sort-perm [] = Perm.refl []
  sort-perm (x ∷ xs) = Perm.trans (insert_sorted-perm x (sort xs)) (Perm.cons x (sort-perm xs))

  insert_sorted-All :
      (P : A → Type 0) (x : A) (ys : List A) → P x → All P ys → All P (insert_sorted x ys)
  unfolding insert_sorted
  insert_sorted-All P x [] p ps = (p, ps)
  insert_sorted-All P x (y ∷ ys) p (q, qs) = elim (Bool-cases (before y x)) [
    | inl h ↦ rw h (q, insert_sorted-All P x ys p qs)
    | inr h ↦ rw h (p, (q, qs))
  ]

  pub sort-All : (P : A → Type 0) (xs : List A) → All P xs → All P (sort xs)
  unfolding sort
  sort-All P [] ps = ps
  sort-All P (x ∷ xs) (p, ps) = insert_sorted-All P x (sort xs) p (sort-All P xs ps)

  module _ (before_asymm : (x y : A) → before x y ≡ true → before y x ≡ false)
      (before_chain : (x y z : A)
        → before y x ≡ false
        → before z y ≡ false
        → before z x ≡ false) where
    insert_sorted-IsSorted : (x : A) (ys : List A) → IsSorted ys → IsSorted (insert_sorted x ys)
    unfolding insert_sorted
    insert_sorted-IsSorted x [] s = (tt, tt)
    insert_sorted-IsSorted x (y ∷ ys) (low, s) = elim (Bool-cases (before y x)) [
      | inl h ↦ rw h (
        insert_sorted-All (λ z. before z y ≡ false) x ys (before_asymm y x h) low,
        insert_sorted-IsSorted x ys s,
      )
      | inr h ↦ rw h ((h, All-map (λ z k. before_chain x y z h k) ys low), (low, s))
    ]

    pub sort-IsSorted : (xs : List A) → IsSorted (sort xs)
    unfolding sort
    sort-IsSorted [] = tt
    sort-IsSorted (x ∷ xs) = insert_sorted-IsSorted x (sort xs) (sort-IsSorted xs)

module _ {ℓ} {A : Type ℓ} where
  -- The sum of a measure over a list.
  abbrev pub sum_by : (A → ℕ) → List A → ℕ
  sum_by f [] = 0
  sum_by f (x ∷ xs) = f x + sum_by f xs

  abbrev pub all_by : (A → Bool) → List A → Bool
  all_by p [] = true
  all_by p (x ∷ xs) = p x && all_by p xs

  pub all_by-All : (p : A → Bool) (xs : List A) → all_by p xs ≡ true → All (λ x. p x ≡ true) xs
  all_by-All p [] h = tt
  all_by-All p (x ∷ xs) h = elim (Bool-cases (p x)) [
    | inl e ↦ (e, all_by-All p xs (ground arith))
    | inr e ↦ absurd (ground arith)
  ]

  pub All-all_by : (p : A → Bool) (xs : List A) → All (λ x. p x ≡ true) xs → all_by p xs ≡ true
  All-all_by p [] h = refl
  All-all_by p (x ∷ xs) (e, es) = ground (arith, All-all_by p xs es)

  permᴰ-sum_by : (f : A → ℕ) {xs ys : List A} → Permᴰ xs ys → sum_by f xs ≡ sum_by f ys
  permᴰ-sum_by f Permᴰ.nil = refl
  permᴰ-sum_by f (Permᴰ.cons e p) = omega (arith, permᴰ-sum_by f p, ap f e)
  permᴰ-sum_by f (Permᴰ.swap e e') = omega (arith, ap f e, ap f e')
  permᴰ-sum_by f (Permᴰ.trans p q) = permᴰ-sum_by f p ∙ permᴰ-sum_by f q

  pub perm-sum_by : (f : A → ℕ) (xs ys : List A) → Perm xs ys → sum_by f xs ≡ sum_by f ys
  perm-sum_by f xs ys p = ∥∥₁_elim p (ℕ_set _ _) (permᴰ-sum_by f)

  permᴰ-all_by : (p : A → Bool) {xs ys : List A} → Permᴰ xs ys → all_by p xs ≡ all_by p ys
  permᴰ-all_by p Permᴰ.nil = refl
  permᴰ-all_by p (Permᴰ.cons e d) = ground (arith, permᴰ-all_by p d, ap p e)
  permᴰ-all_by p (Permᴰ.swap e e') = ground (arith, ap p e, ap p e')
  permᴰ-all_by p (Permᴰ.trans d d') = permᴰ-all_by p d ∙ permᴰ-all_by p d'

  pub perm-all_by : (p : A → Bool) (xs ys : List A) → Perm xs ys → all_by p xs ≡ all_by p ys
  perm-all_by p xs ys d = ∥∥₁_elim d (Bool-set _ _) (permᴰ-all_by p)

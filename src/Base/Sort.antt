-- ===== src/Base/Sort.antt =====
-- Sorting by a strict weak order: sort.Strings, sort.Ints, sort.Slice and sort.SliceStable. The
-- result of a stable sort does not depend on the algorithm; this one inserts.
use mathlib.Core.Path.{◌≡◌, refl, ap, ◌∙◌}
use mathlib.Core.Logic.{inl, inr}
use mathlib.Core.Bool.{Bool, true, false, ◌||◌}
use mathlib.Core.List.{List, [], ◌∷◌, ◌++◌, Perm}
use mathlib.Core.List.Perm
use cute_pcap_mcp.Base.Tests.{if◌then◌else◌, Bool-cases}
use cute_pcap_mcp.Base.Lists.{All, All-parts, any, length}
use Prim.Native.Nat.{suc}

module _ {ℓ} {A : Type ℓ} (less : A → A → Bool) where
  unfoldable pub insert : A → List A → List A
  insert x [] = x ∷ []
  insert x (y ∷ ys) = if less y x then y ∷ insert x ys else x ∷ y ∷ ys

  unfoldable pub sort : List A → List A
  unfolding insert
  sort [] = []
  sort (x ∷ xs) = insert x (sort xs)

  -- No element is less than one before it.
  abbrev pub IsSorted : List A → Type 0
  IsSorted [] = Unit
  IsSorted (x ∷ xs) = All (λ y. less y x ≡ false) xs × IsSorted xs

or_swap : (a b c : Bool) → (a || (b || c)) ≡ (b || (a || c))
or_swap true true c = refl
or_swap true false c = refl
or_swap false b c = refl

-- What the orders of the program satisfy.
pub record IsWeakOrder {ℓ} {A : Type ℓ} (less : A → A → Bool) : Type ℓ where
  pub asym : (a b : A) → less a b ≡ true → less b a ≡ false
  pub trans : (a b c : A) → less b a ≡ false → less c b ≡ false → less c a ≡ false

module _ {ℓ} {A : Type ℓ} (less : A → A → Bool) where
  pub insert-perm : (x : A) (ys : List A) → Perm (insert less x ys) (x ∷ ys)
  unfolding insert
  insert-perm x [] = Perm.refl _
  insert-perm x (y ∷ ys) = elim (Bool-cases (less y x)) [
    | inl p ↦ rw p (Perm.trans (Perm.cons y (insert-perm x ys)) (Perm.swap x y ys))
    | inr p ↦ rw p (Perm.refl _)
  ]

  pub sort-perm : (xs : List A) → Perm (sort less xs) xs
  unfolding sort
  sort-perm [] = Perm.refl _
  sort-perm (x ∷ xs) = Perm.trans (insert-perm x (sort less xs)) (Perm.cons x (sort-perm xs))

  pub any-insert :
      (f : A → Bool) (x : A) (ys : List A) → any f (insert less x ys) ≡ (f x || any f ys)
  unfolding insert
  any-insert f x [] = refl
  any-insert f x (y ∷ ys) = elim (Bool-cases (less y x)) [
    | inl e ↦ rw (e, any-insert f x ys) (or_swap (f y) (f x) (any f ys))
    | inr e ↦ rw e refl
  ]

  pub any-sort : (f : A → Bool) (xs : List A) → any f (sort less xs) ≡ any f xs
  unfolding sort
  any-sort f [] = refl
  any-sort f (x ∷ xs) = any-insert f x (sort less xs) ∙ ap (λ b. f x || b) (any-sort f xs)

  module _ {κ} (P : A → Type κ) where
    pub insert-All : (x : A) (ys : List A) → P x → All P ys → All P (insert less x ys)
    unfolding insert
    insert-All x [] p h = (p, tt)
    insert-All x (y ∷ ys) p (q, h) = elim (Bool-cases (less y x)) [
      | inl e ↦ rw e (q, insert-All x ys p h)
      | inr e ↦ rw e (p, (q, h))
    ]

    pub sort-All : (xs : List A) → All P xs → All P (sort less xs)
    unfolding sort
    sort-All [] h = tt
    sort-All (x ∷ xs) (p, h) = insert-All x (sort less xs) p (sort-All xs h)

module _ {ℓ} {A : Type ℓ} {less : A → A → Bool} (w : IsWeakOrder less) where
  All-after :
      (x y : A) (zs : List A)
      → less y x ≡ false
      → All (λ z. less z y ≡ false) zs
      → All (λ z. less z x ≡ false) zs
  All-after x y [] p h = tt
  All-after x y (z ∷ zs) p (q, h) = (w.trans x y z p q, All-after x y zs p h)

  insert-IsSorted : (x : A) (ys : List A) → IsSorted less ys → IsSorted less (insert less x ys)
  unfolding insert
  insert-IsSorted x [] h = (tt, tt)
  insert-IsSorted x (y ∷ ys) (a, h) = elim (Bool-cases (less y x)) [
    | inl e ↦
        rw e (insert-All less (λ z. less z y ≡ false) x ys (w.asym y x e) a, insert-IsSorted x ys h)
    | inr e ↦ rw e ((e, All-after x y ys e a), (a, h))
  ]

  pub sort-IsSorted : (xs : List A) → IsSorted less (sort less xs)
  unfolding sort
  sort-IsSorted [] = tt
  sort-IsSorted (x ∷ xs) = insert-IsSorted x (sort less xs) (sort-IsSorted xs)

module _ {ℓ} {A : Type ℓ} (less : A → A → Bool) where
  -- Of a sorted list in two parts, no element of the second part is less than one of the first.
  pub IsSorted-append :
      (xs ys : List A)
      → IsSorted less (xs ++ ys)
      → IsSorted less xs × All (λ x. All (λ y. less y x ≡ false) ys) xs
  IsSorted-append [] ys h = (tt, tt)
  IsSorted-append (x ∷ xs) ys (p, h) =
      let (sorted, above) = IsSorted-append xs ys h in
      let (mine, theirs) = All-parts (λ y. less y x ≡ false) xs ys p in
      ((mine, sorted), (theirs, above))

  pub length-insert : (x : A) (ys : List A) → length (insert less x ys) ≡ suc (length ys)
  unfolding insert
  length-insert x [] = refl
  length-insert x (y ∷ ys) = elim (Bool-cases (less y x)) [
    | inl p ↦ rw p (ap suc (length-insert x ys))
    | inr p ↦ rw p refl
  ]

  pub length-sort : (xs : List A) → length (sort less xs) ≡ length xs
  unfolding sort
  length-sort [] = refl
  length-sort (x ∷ xs) = length-insert x (sort less xs) ∙ ap suc (length-sort xs)

-- ===== src/Base/Sort.antt =====
-- `Array.sort` by a number: stable, so any stable method gives the same list.
use Prim.Native.Nat.{ℕ, ◌≤◌}
use mathlib.Core.Path.{◌≡◌, refl}
use mathlib.Core.List.{List, [], ◌∷◌, Perm, map}
use mathlib.Core.List.Perm
use native.Mathlib.Omega.{arith}
use opencode_master.Base.Tests.{leb, eqb, if◌then◌else◌, Bool-cases}
use opencode_master.Base.Lists.{All}
use opencode_master.Base.Table.{select}
use mathlib.Core.Logic.{inl, inr}

module _ {ℓ} {A : Type ℓ} (key : A → ℕ) where
  abbrev pub insert_by : A → List A → List A
  insert_by x [] = x ∷ []
  insert_by x (y ∷ ys) = if leb (key x) (key y) then x ∷ (y ∷ ys) else y ∷ insert_by x ys

  unfoldable pub sort_by : List A → List A
  sort_by [] = []
  sort_by (x ∷ xs) = insert_by x (sort_by xs)

  -- Every later key is at least the earlier one.
  abbrev pub IsSorted : List A → Type 0
  IsSorted [] = Unit
  IsSorted (x ∷ xs) = All (λ y. key x ≤ key y) xs × IsSorted xs

module _ {ℓ} {A : Type ℓ} (key : A → ℕ) where
  All-insert_by :
      (P : A → Type 0) (x : A) (ys : List A) → P x → All P ys → All P (insert_by key x ys)
  All-insert_by P x [] p _ = (p, tt)
  All-insert_by P x (y ∷ ys) p (q, r) = ground (arith, All-insert_by P x ys p r)

  pub All-le_trans :
      (m n : ℕ) (ys : List A) → m ≤ n → All (λ y. n ≤ key y) ys → All (λ y. m ≤ key y) ys
  All-le_trans m n [] h _ = tt
  All-le_trans m n (y ∷ ys) h (q, r) = (omega arith, All-le_trans m n ys h r)

  insert_by-IsSorted : (x : A) (ys : List A) → IsSorted key ys → IsSorted key (insert_by key x ys)
  insert_by-IsSorted x [] _ = (tt, tt)
  insert_by-IsSorted x (y ∷ ys) (q, s) = elim (Bool-cases (leb (key x) (key y))) [
    | inl le ↦ rw le ((ground arith, All-le_trans (key x) (key y) ys (ground arith) q), (q, s))
    | inr gt ↦
        rw gt (All-insert_by (λ z. key y ≤ key z) x ys (ground arith) q, insert_by-IsSorted x ys s)
  ]

  pub sort_by-IsSorted : (xs : List A) → IsSorted key (sort_by key xs)
  unfolding sort_by
  sort_by-IsSorted [] = tt
  sort_by-IsSorted (x ∷ xs) = insert_by-IsSorted x (sort_by key xs) (sort_by-IsSorted xs)

  insert_by-perm : (x : A) (ys : List A) → Perm (insert_by key x ys) (x ∷ ys)
  insert_by-perm x [] = Perm.refl (x ∷ [])
  insert_by-perm x (y ∷ ys) = elim (Bool-cases (leb (key x) (key y))) [
    | inl le ↦ rw le (Perm.refl (x ∷ (y ∷ ys)))
    | inr gt ↦ rw gt (Perm.trans (Perm.cons y (insert_by-perm x ys)) (Perm.swap x y ys))
  ]

  pub sort_by-perm : (xs : List A) → Perm (sort_by key xs) xs
  unfolding sort_by
  sort_by-perm [] = Perm.refl []
  sort_by-perm (x ∷ xs) =
      Perm.trans (insert_by-perm x (sort_by key xs)) (Perm.cons x (sort_by-perm xs))

  -- Rows with the same key keep their order.
  select-insert_by :
      (k : ℕ) (x : A) (ys : List A)
      → select (λ y. eqb (key y) k) (insert_by key x ys) ≡ select (λ y. eqb (key y) k) (x ∷ ys)
  select-insert_by k x [] = refl
  select-insert_by k x (y ∷ ys) = ground (arith, select-insert_by k x ys)

  pub select-sort_by :
      (k : ℕ) (xs : List A)
      → select (λ y. eqb (key y) k) (sort_by key xs) ≡ select (λ y. eqb (key y) k) xs
  unfolding sort_by
  select-sort_by k [] = refl
  select-sort_by k (x ∷ xs) =
      ground (arith, select-insert_by k x (sort_by key xs), select-sort_by k xs)

-- A sort that maps its result lists the images of the same items.
module _ {ℓ κ} {A : Type ℓ} {B : Type κ} (key : A → ℕ) (f : A → B) where
  map-insert_by-perm : (x : A) (ys : List A) → Perm (map f (insert_by key x ys)) (f x ∷ map f ys)
  map-insert_by-perm x [] = Perm.refl (f x ∷ [])
  map-insert_by-perm x (y ∷ ys) = elim (Bool-cases (leb (key x) (key y))) [
    | inl le ↦ rw le (Perm.refl (f x ∷ (f y ∷ map f ys)))
    | inr gt ↦
        rw gt (
          Perm.trans (Perm.cons (f y) (map-insert_by-perm x ys)) (Perm.swap (f x) (f y) (map f ys)))
  ]

  pub map-sort_by-perm : (xs : List A) → Perm (map f (sort_by key xs)) (map f xs)
  unfolding sort_by
  map-sort_by-perm [] = Perm.refl []
  map-sort_by-perm (x ∷ xs) =
      Perm.trans (map-insert_by-perm x (sort_by key xs)) (Perm.cons (f x) (map-sort_by-perm xs))

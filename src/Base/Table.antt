-- ===== src/Base/Table.antt =====
-- A table of the database as the list of its rows in the order of insertion, and its queries: the
-- first row that fits, all rows that fit, and an update of the rows that fit.
use mathlib.Core.Path.{◌≡◌, refl}
use mathlib.Core.Bool.{Bool, true, false}
use mathlib.Core.List.{List, [], ◌∷◌, ◌++◌, map}
use mathlib.Core.Option.{Option, none, some, map as map_some}
use Prim.Native.String.{String}
use native.Mathlib.Omega.{arith}
use opencode_master.Base.Tests.{if◌then◌else◌, ◌==◌}
use opencode_master.Base.Lists.{All}

module _ {ℓ} {A : Type ℓ} where
  abbrev pub find? : (A → Bool) → List A → Option A
  find? p [] = none
  find? p (x ∷ xs) = if p x then some x else find? p xs

  abbrev pub select : (A → Bool) → List A → List A
  select p [] = []
  select p (x ∷ xs) = let rest = select p xs in if p x then x ∷ rest else rest

  abbrev pub update : (A → Bool) → (A → A) → List A → List A
  update p f [] = []
  update p f (x ∷ xs) = (if p x then f x else x) ∷ update p f xs

abbrev pub or_else {ℓ} : {A : Type ℓ} → Option A → A → A
or_else none d = d
or_else (some a) d = a

abbrev pub first_of_both {ℓ} : {A : Type ℓ} → Option A → Option A → Option A
first_of_both none b = b
first_of_both (some a) b = some a

abbrev pub is_some {ℓ} : {A : Type ℓ} → Option A → Bool
is_some none = false
is_some (some a) = true

-- Rows with a key column.
module _ {A : Type 0} (key : A → String) where
  abbrev pub has_key : String → A → Bool
  has_key k x = key x == k

  abbrev pub IsFresh : String → List A → Type 0
  IsFresh k = All (λ x. key x ≡ k → ⊥)

  -- No two rows have the same key.
  abbrev pub HasUniqueKeys : List A → Type 0
  HasUniqueKeys [] = Unit
  HasUniqueKeys (x ∷ xs) = IsFresh (key x) xs × HasUniqueKeys xs

  pub find?-update :
      (j k : String) (f : A → A) (h : (x : A) → key (f x) ≡ key x) (xs : List A)
      → find? (has_key k) (update (has_key j) f xs)
        ≡ (if j == k then map_some f (find? (has_key k) xs) else find? (has_key k) xs)
  find?-update j k f h [] = ground arith
  find?-update j k f h (x ∷ xs) = ground (arith, h x, find?-update j k f h xs)

  pub find?-append :
      (k : String) (xs : List A) (y : A)
      → find? (has_key k) (xs ++ y ∷ [])
        ≡ first_of_both (find? (has_key k) xs) (if key y == k then some y else none)
  find?-append k [] y = ground arith
  find?-append k (x ∷ xs) y = ground (arith, find?-append k xs y)

  IsFresh-update :
      (k : String) (p : A → Bool) (f : A → A) (h : (x : A) → key (f x) ≡ key x) (xs : List A)
      → IsFresh k xs
      → IsFresh k (update p f xs)
  IsFresh-update k p f h [] _ = tt
  IsFresh-update k p f h (x ∷ xs) (n, r) = (ground (arith, h x), IsFresh-update k p f h xs r)

  pub HasUniqueKeys-update :
      (p : A → Bool) (f : A → A) (h : (x : A) → key (f x) ≡ key x) (xs : List A)
      → HasUniqueKeys xs
      → HasUniqueKeys (update p f xs)
  HasUniqueKeys-update p f h [] _ = tt
  HasUniqueKeys-update p f h (x ∷ xs) (n, r) =
      (ground (arith, h x, IsFresh-update (key x) p f h xs n), HasUniqueKeys-update p f h xs r)

  IsFresh-append :
      (k : String) (xs : List A) (y : A) → IsFresh k xs → (key y ≡ k → ⊥) → IsFresh k (xs ++ y ∷ [])
  IsFresh-append k [] y _ n = (n, tt)
  IsFresh-append k (x ∷ xs) y (m, r) n = (m, IsFresh-append k xs y r n)

  pub HasUniqueKeys-append :
      (xs : List A) (y : A)
      → HasUniqueKeys xs
      → find? (has_key (key y)) xs ≡ none
      → HasUniqueKeys (xs ++ y ∷ [])
  HasUniqueKeys-append [] y _ _ = (tt, tt)
  HasUniqueKeys-append (x ∷ xs) y (n, r) e = (
    IsFresh-append (key x) xs y n (λ p. ground arith),
    HasUniqueKeys-append xs y r (ground arith),
  )

  pub find?-fresh : (k : String) (xs : List A) → IsFresh k xs → find? (has_key k) xs ≡ none
  find?-fresh k [] _ = refl
  find?-fresh k (x ∷ xs) (n, r) = ground (arith, find?-fresh k xs r)

-- `Array.includes` and `Set.has`.
abbrev pub contains : List String → String → Bool
contains [] k = false
contains (j ∷ js) k = if j == k then true else contains js k

-- A loop over rows that were read, each of which writes back to its own row of the table.
module _ {A : Type 0} (key : A → String) (f : A → A → A) where
  abbrev pub update_each : List A → List A → List A
  update_each [] table = table
  update_each (row ∷ rows) table = update_each rows (update (has_key key (key row)) (f row) table)

module _ {A : Type 0} (key : A → String) where
  update-fresh :
      (k : String) (f : A → A) (xs : List A) → IsFresh key k xs → update (has_key key k) f xs ≡ xs
  update-fresh k f [] _ = refl
  update-fresh k f (x ∷ xs) (n, r) = ground (arith, update-fresh k f xs r)

  IsFresh-select :
      (k : String) (p : A → Bool) (xs : List A) → IsFresh key k xs → IsFresh key k (select p xs)
  IsFresh-select k p [] _ = tt
  IsFresh-select k p (x ∷ xs) (n, r) = ground (arith, IsFresh-select k p xs r)

  module _ (f : A → A → A) (keeps : (row x : A) → key (f row x) ≡ key x) where
    update_each-cons :
        (rows table : List A) (y : A)
        → IsFresh key (key y) rows
        → update_each key f rows (y ∷ table) ≡ y ∷ update_each key f rows table
    update_each-cons [] table y _ = refl
    update_each-cons (row ∷ rows) table y (n, r) = ground (
      arith,
      keeps row y,
      update_each-cons rows (update (has_key key (key row)) (f row) table) y r,
    )

    -- With unique keys, the loop over the selected rows maps these rows.
    pub update_each-select :
        (p : A → Bool) (xs : List A)
        → HasUniqueKeys key xs
        → update_each key f (select p xs) xs ≡ map (λ x. if p x then f x x else x) xs
    update_each-select p [] _ = refl
    update_each-select p (x ∷ xs) (n, u) = ground (
      arith,
      keeps x x,
      update-fresh (key x) (f x) xs n,
      update_each-cons (select p xs) xs x (IsFresh-select (key x) p xs n),
      update_each-cons (select p xs) xs (f x x),
      IsFresh-select (key x) p xs n,
      update_each-select p xs u,
    )

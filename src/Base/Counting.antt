-- ===== src/Base/Counting.antt =====
-- Rows whose key is a number that counts up by one.
use Prim.Native.Nat.{ℕ, zero, suc, ◌+◌, ◌-◌, ◌≤◌}
use mathlib.Core.Path.{◌≡◌, refl, sym, ap, subst, ◌∙◌}
use mathlib.Core.List.{List, [], ◌∷◌, ◌++◌}
use mathlib.Core.Bool.{Bool}
use mathlib.Core.Logic.{inl, inr}
use native.Mathlib.Omega.{arith}
use opencode_master.Base.Tests.{ltb, Bool-cases}
use opencode_master.Base.Lists.{length, drop}
use opencode_master.Base.Table.{select}
use opencode_master.Base.Sort.{sort_by, insert_by}

module _ {A : Type 0} where
  drop-nil : (k : ℕ) → drop {A = A} k [] ≡ []
  drop-nil zero = refl
  drop-nil (suc k) = refl

module _ {A : Type 0} (key : A → ℕ) where
  -- Rows numbered from `first` on, without a gap.
  abbrev pub Numbered : ℕ → List A → Type 0
  Numbered first [] = Unit
  Numbered first (row ∷ rows) = (key row ≡ first) × Numbered (suc first) rows

  pub Numbered-append :
      (n : ℕ) (rows : List A) (row : A)
      → Numbered n rows
      → key row ≡ n + length rows
      → Numbered n (rows ++ row ∷ [])
  Numbered-append n [] row _ e = (ground arith, tt)
  Numbered-append n (x ∷ rows) row (h, a) e = (h, Numbered-append (suc n) rows row a (ground arith))

  -- Numbered rows are sorted already.
  pub sort_by-Numbered : (n : ℕ) (rows : List A) → Numbered n rows → sort_by key rows ≡ rows
  unfolding sort_by
  sort_by-Numbered n [] _ = refl
  sort_by-Numbered n (x ∷ []) _ = refl
  sort_by-Numbered n (x ∷ (y ∷ rows)) (e, (h, a)) =
      ap (insert_by key x) (sort_by-Numbered (suc n) (y ∷ rows) (h, a)) ∙ ground arith

  pub Numbered-drop : (n k : ℕ) (rows : List A) → Numbered n rows → Numbered (n + k) (drop k rows)
  Numbered-drop n zero rows v = subst (λ m. Numbered m rows) (omega arith) v
  Numbered-drop n (suc k) [] v = tt
  Numbered-drop n (suc k) (x ∷ rows) (e, v) =
      subst (λ m. Numbered m (drop k rows)) (omega arith) (Numbered-drop (suc n) k rows v)

  abbrev pub later_than : ℕ → A → Bool
  later_than seq row = ltb seq (key row)

  -- The rows above a number are those that come after it in the numbering.
  pub select-later :
      (n seq : ℕ) (rows : List A)
      → Numbered (suc n) rows
      → select (later_than seq) rows ≡ drop (seq - n) rows
  select-later n seq [] v = sym (drop-nil (seq - n))
  select-later n seq (x ∷ rows) (e, v) = elim (Bool-cases (ltb seq (suc n))) [
    | inl below ↦
        let here : seq - n ≡ 0 = ground arith in
        let rest : seq - suc n ≡ 0 = ground arith in ground (arith, select-later (suc n) seq rows v)
    | inr above ↦
        let here : seq - n ≡ suc (seq - suc n) = ground arith in
        ground (arith, select-later (suc n) seq rows v)
  ]

module _ {A : Type 0} where
  pub drop-append : (xs ys : List A) → drop (length xs) (xs ++ ys) ≡ ys
  drop-append [] ys = refl
  drop-append (x ∷ xs) ys = drop-append xs ys

  pub drop-drop : (a b : ℕ) (xs : List A) → drop b (drop a xs) ≡ drop (a + b) xs
  drop-drop zero b xs = ap (λ m. drop m xs) (omega arith)
  drop-drop (suc a) b [] = drop-nil b ∙ sym (drop-nil (suc a + b))
  drop-drop (suc a) b (x ∷ xs) =
      let e : suc (a + b) ≡ suc a + b = omega arith in
      drop-drop a b xs ∙ ap (λ m. drop m (x ∷ xs)) e

  pub drop-grown :
      (a : ℕ) (xs : List A) (y : A) → a ≤ length xs → drop a (xs ++ y ∷ []) ≡ drop a xs ++ y ∷ []
  drop-grown zero xs y h = refl
  drop-grown (suc a) [] y h = absurd (omega arith)
  drop-grown (suc a) (x ∷ xs) y h = drop-grown a xs y (omega arith)

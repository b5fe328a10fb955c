-- ===== src/Base/Interleave.antt =====
-- Calls that run at the same time: a list of calls over one state, where a step moves one of them.
use Prim.Native.Nat.{ℕ, zero, suc}
use mathlib.Core.Path.{◌≡◌, ap, ◌∙◌}
use opencode_master.Base.Lists.{All}
use mathlib.Core.List.{List, [], ◌∷◌, ◌++◌, map}

module _ {ℓ κ} {S : Type ℓ} {A : Type κ} (step : S → A → S × A) where
  -- A step of the call of a number, counted from 0.
  unfoldable pub step_nth : ℕ → S → List A → S × List A
  step_nth n state [] = (state, [])
  step_nth zero state (call ∷ calls) = let (after, next) = step state call in (after, next ∷ calls)
  step_nth (suc n) state (call ∷ calls) =
      let (after, next) = step_nth n state calls in (after, call ∷ next)

  -- Steps of the calls of these numbers, in this order.
  unfoldable pub step_all : S × List A → List ℕ → S × List A
  step_all (state, calls) [] = (state, calls)
  step_all (state, calls) (n ∷ ns) = step_all (step_nth n state calls) ns

-- The orders in which the steps of two calls may come.
unfoldable pub merges {ℓ} : {A : Type ℓ} → List A → List A → List (List A)
merges [] ys = ys ∷ []
merges (x ∷ xs) [] = (x ∷ xs) ∷ []
merges (x ∷ xs) (y ∷ ys) = map (◌∷◌ x) (merges xs (y ∷ ys)) ++ map (◌∷◌ y) (merges (x ∷ xs) ys)

module _ {ℓ κ} {S : Type ℓ} {E : Type κ} (run : S → List E → S)
    (run-append : (s : S) (xs ys : List E) → run s (xs ++ ys) ≡ run (run s xs) ys)
    (start middle : S) (after : S) where
  All-after :
      (xs : List E) (lasts : List (List E))
      → run start xs ≡ middle
      → All (λ ys. run middle ys ≡ after) lasts
      → All (λ ys. run start (xs ++ ys) ≡ after) lasts
  All-after xs [] h _ = tt
  All-after xs (ys ∷ lasts) h (k, ks) =
      (run-append start xs ys ∙ ap (λ s. run s ys) h ∙ k, All-after xs lasts h ks)

  -- Orders that all lead to one state, and orders that all lead on from it.
  pub All-through :
      (firsts lasts : List (List E))
      → All (λ xs. run start xs ≡ middle) firsts
      → All (λ ys. run middle ys ≡ after) lasts
      → All (λ xs. All (λ ys. run start (xs ++ ys) ≡ after) lasts) firsts
  All-through [] lasts _ ks = tt
  All-through (xs ∷ firsts) lasts (h, hs) ks =
      (All-after xs lasts h ks, All-through firsts lasts hs ks)

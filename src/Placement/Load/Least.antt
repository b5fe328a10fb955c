-- ===== src/Placement/Load/Least.antt =====
-- src/placement/load.ts: the bounds of the score, and the choice of a least loaded item.
use opencode_master.Base.{
  ℕ, ◌+◌, ◌≤◌, ◌<◌, ◌≡◌, refl, arith, All, List, ◌∷◌, [], inl, none, ◌⊎◌, inr, some, Bool-cases,
  ltb, subst, sym,
}
use opencode_master.Types.{WorkerLoad}
use opencode_master.Placement.Load.{score_load, capped, pick_from, pick_least_loaded}
use native.Mathlib.Nat.{le_refl}

capped-le : (x cap : ℕ) → capped x cap ≤ cap
unfolding capped
capped-le x cap = omega arith

capped_mono : (x y cap : ℕ) → x ≤ y → capped x cap ≤ capped y cap
unfolding capped
capped_mono x y cap h = omega arith

-- A score is at most 8000, which stands for 1, and grows with each of the measured loads.
pub score_load_lem :
    (a b : WorkerLoad)
    → (score_load a ≤ 8000)
      × (a.cpu_pct ≤ b.cpu_pct
          → a.mem_pct ≤ b.mem_pct
          → a.active_drains ≤ b.active_drains
          → a.pending_steer ≤ b.pending_steer
          → a.pending_queue ≤ b.pending_queue
          → a.tool_processes ≤ b.tool_processes
          → score_load a ≤ score_load b)
unfolding score_load
score_load_lem a b = (
  omega (
    arith,
    capped-le a.cpu_pct 100,
    capped-le a.mem_pct 100,
    capped-le a.active_drains 8,
    capped-le (a.pending_steer + a.pending_queue) 8,
    capped-le a.tool_processes 16,
  ),
  λ c m d s q t. omega (
    arith,
    capped_mono a.cpu_pct b.cpu_pct 100 c,
    capped_mono a.mem_pct b.mem_pct 100 m,
    capped_mono a.active_drains b.active_drains 8 d,
    capped_mono (a.pending_steer + a.pending_queue) (b.pending_steer + b.pending_queue) 8
        (omega arith),
    capped_mono a.tool_processes b.tool_processes 16 t,
  ),
)

module _ {A : Type 0} (load : A → WorkerLoad) where
  abbrev score_of : A → ℕ
  score_of x = score_load (load x)

  -- `best` stands in the list behind items that all have a greater score, and no item after it has a
  -- smaller one.
  abbrev pub IsLeast : A → List A → Type 0
  IsLeast best [] = ⊥
  IsLeast best (x ∷ xs) =
      ((best ≡ x) × All (λ y. score_load (load x) ≤ score_load (load y)) xs)
      ⊎ ((score_load (load best) < score_load (load x)) × IsLeast best xs)

  IsLeast-head : (best x : A) (xs : List A) → IsLeast best (x ∷ xs) → score_of best ≤ score_of x
  IsLeast-head best x xs (inl (e, a)) = rw e (le_refl (score_of x))
  IsLeast-head best x xs (inr (lt, l)) = omega arith

  insert_second :
      (best chosen x : A) (items : List A)
      → score_of best ≤ score_of x
      → IsLeast chosen (best ∷ items)
      → IsLeast chosen (best ∷ (x ∷ items))
  insert_second best chosen x items h (inl (e, a)) = inl (e, (h, a))
  insert_second best chosen x items h (inr (lt, l)) = inr (lt, inr (omega arith, l))

  pick_from-IsLeast :
      (best : A) (items : List A)
      → IsLeast (pick_from load best (score_load (load best)) items) (best ∷ items)
  unfolding pick_from
  pick_from-IsLeast best [] = inl (refl, tt)
  pick_from-IsLeast best (x ∷ items) = elim (Bool-cases (ltb (score_of x) (score_of best))) [
    | inl less ↦
        let ih = pick_from-IsLeast x items in
        let below = IsLeast-head (pick_from load x (score_of x) items) x items ih in
        let e : pick_from load best (score_of best) (x ∷ items)
            ≡ pick_from load x (score_of x) items =
          rw less in
        subst (λ p. IsLeast p (best ∷ (x ∷ items))) (sym e) (inr (ground arith, ih))
    | inr kept ↦
        let e : pick_from load best (score_of best) (x ∷ items)
            ≡ pick_from load best (score_of best) items =
          rw kept in
        subst (λ p. IsLeast p (best ∷ (x ∷ items))) (sym e)
          (insert_second best (pick_from load best (score_of best) items) x items (ground arith)
            (pick_from-IsLeast best items))
  ]

  -- The least loaded item is the first one with the least score; only the empty list has none.
  pub pick_least_loaded-IsLeast :
      (items : List A)
      → ((items ≡ []) × (pick_least_loaded load items ≡ none))
        ⊎ ((best : A) × (pick_least_loaded load items ≡ some best) × IsLeast best items)
  unfolding pick_least_loaded
  pick_least_loaded-IsLeast [] = inl (refl, refl)
  pick_least_loaded-IsLeast (x ∷ items) =
      inr (pick_from load x (score_load (load x)) items, refl, pick_from-IsLeast x items)

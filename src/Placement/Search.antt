-- ===== src/Placement/Search.antt =====
-- src/placement/consistent-hash.ts: the binary search finds the clockwise successor of a point.
use opencode_master.Base.{
  ℕ, zero, suc, ◌≡◌, ◌⊎◌, inl, inr, ◌≤◌, ◌<◌, arith, List, [], ◌∷◌, true, false, IsSorted, All,
  Bool-cases, length, true-ne-false, ◌+◌, ltb, ◌-◌, ◌/◌, refl,
}
use opencode_master.Placement.{RingNode, point_of, reaches, search_from, search}

All-get_elem? :
    (m : ℕ) (ring : List RingNode) (j : ℕ)
    → All (λ y. m ≤ point_of y) ring
    → (target : ℕ) → target ≤ m
    → j < length ring
    → reaches ring target j ≡ true
All-get_elem? m [] j a target h lt = absurd (omega arith)
All-get_elem? m (x ∷ ring) zero (p, a) target h lt = ground arith
All-get_elem? m (x ∷ ring) (suc j) (p, a) target h lt =
    All-get_elem? m ring j a target h (omega arith)

reaches_mono :
    (ring : List RingNode) (target i j : ℕ)
    → IsSorted point_of ring
    → i ≤ j
    → j < length ring
    → reaches ring target i ≡ true
    → reaches ring target j ≡ true
reaches_mono [] target i j s h lt r = absurd (omega arith)
reaches_mono (x ∷ ring) target zero zero s h lt r = r
reaches_mono (x ∷ ring) target zero (suc j) (a, s) h lt r =
    All-get_elem? (point_of x) ring j a target (ground arith) (omega arith)
reaches_mono (x ∷ ring) target (suc i) zero s h lt r = absurd (omega arith)
reaches_mono (x ∷ ring) target (suc i) (suc j) (a, s) h lt r =
    reaches_mono ring target i j s (omega arith) (omega arith) r

pub reaches-past :
    (ring : List RingNode) (target j : ℕ) → length ring ≤ j → reaches ring target j ≡ false
reaches-past [] target j h = refl
reaches-past (x ∷ ring) target zero h = absurd (omega arith)
reaches-past (x ∷ ring) target (suc j) h = reaches-past ring target j (omega arith)

-- No node before index `k` lies at or after the target.
abbrev pub NoneBefore : List RingNode → ℕ → ℕ → Type 0
NoneBefore ring target k = (j : ℕ) → j < k → reaches ring target j ≡ false

-- `r` is the index of the first node at or after the target, or 0 where there is none.
abbrev pub IsSuccessor : List RingNode → ℕ → ℕ → Type 0
IsSuccessor ring target r =
    ((reaches ring target r ≡ true) × NoneBefore ring target r)
    ⊎ ((r ≡ 0) × NoneBefore ring target (length ring))

abbrev IsBest : List RingNode → ℕ → ℕ → ℕ → Type 0
IsBest ring target end idx =
    ((reaches ring target idx ≡ true) × (idx ≡ end)) ⊎ ((idx ≡ 0) × (end ≡ length ring))

module _ (ring : List RingNode) (target : ℕ) (sorted : IsSorted point_of ring) where
  none_through :
      (mid : ℕ)
      → mid < length ring
      → reaches ring target mid ≡ false
      → NoneBefore ring target (mid + 1)
  none_through mid lt miss j h = elim (Bool-cases (reaches ring target j)) [
    | inl hit ↦
        absurd (true-ne-false (reaches_mono ring target j mid sorted (omega arith) lt hit) miss)
    | inr no_hit ↦ no_hit
  ]

  stopped :
      (lo end idx : ℕ)
      → end ≤ lo
      → NoneBefore ring target lo
      → IsBest ring target end idx
      → IsSuccessor ring target idx
  stopped lo end idx le low (inl (hit, e)) = inl (hit, λ j h. low j (omega arith))
  stopped lo end idx le low (inr (z, e)) = inr (z, λ j h. low j (omega arith))

  search_from-IsSuccessor :
      (fuel lo end idx : ℕ)
      → end ≤ lo + fuel
      → lo ≤ end
      → end ≤ length ring
      → NoneBefore ring target lo
      → IsBest ring target end idx
      → IsSuccessor ring target (search_from fuel ring target lo end idx)
  unfolding search_from
  search_from-IsSuccessor zero lo end idx enough le within low best =
      stopped lo end idx (omega arith) low best
  search_from-IsSuccessor (suc fuel) lo end idx enough le within low best =
      elim (Bool-cases (ltb lo end)) [
        | inr stop ↦ rw stop (stopped lo end idx (ground arith) low best)
        | inl go ↦ elim (Bool-cases (reaches ring target ((lo + (end - 1)) / 2))) [
          | inl hit ↦
              rw (go, hit)
                (search_from-IsSuccessor fuel lo ((lo + (end - 1)) / 2) ((lo + (end - 1)) / 2)
                  (ground arith) (ground arith) (ground arith) low (inl (hit, refl)))
          | inr miss ↦
              rw (go, miss)
                (search_from-IsSuccessor fuel ((lo + (end - 1)) / 2 + 1) end idx (ground arith)
                  (ground arith) within (none_through ((lo + (end - 1)) / 2) (ground arith) miss)
                  best)
        ]
      ]

-- On a sorted ring the search, with the fuel that it is given, ends at the first node whose point is
-- at least the target, and at index 0 where every point is below it.
pub search-IsSuccessor :
    (ring : List RingNode) (target : ℕ)
    → IsSorted point_of ring
    → IsSuccessor ring target (search ring target)
unfolding search
search-IsSuccessor ring target sorted =
    search_from-IsSuccessor ring target sorted (length ring) 0 (length ring) 0 (omega arith)
      (omega arith) (omega arith) (λ j h. absurd (omega arith)) (inr (refl, refl))

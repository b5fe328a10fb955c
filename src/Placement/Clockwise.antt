-- ===== src/Placement/Clockwise.antt =====
-- src/placement/consistent-hash.ts: the candidates of a key, in the clockwise order of a sorted ring.
use opencode_master.Base.{
  ℕ, zero, suc, String, Bool, true, ◌≡◌, refl, inl, inr, ◌≤◌, arith, List, [], ◌∷◌, ◌++◌, length,
  take, drop, select, IsSorted, All, leb, ltb, append-nil, map, Option, ap, ◌∙◌,
}
use opencode_master.Placement.{
  RingNode, point_of, search, reaches, is_alive, candidates, hash_string,
}
use opencode_master.Placement.Search.{search-IsSuccessor, NoneBefore}
use opencode_master.Placement.Walk.{rotated, distinct, slave_of, candidates-rotated}

-- The order of a walk from a point: the nodes at or after it, then those before it.
abbrev pub clockwise : ℕ → List RingNode → List RingNode
clockwise target ring =
    select (λ x. leb target x.point) ring ++ select (λ x. ltb x.point target) ring

select-All :
    (target m : ℕ) (xs : List RingNode)
    → target ≤ m
    → All (λ y. m ≤ point_of y) xs
    → (select (λ x. leb target x.point) xs ≡ xs) × (select (λ x. ltb x.point target) xs ≡ [])
select-All target m [] h _ = (refl, refl)
select-All target m (x ∷ xs) h (p, a) = ground (arith, select-All target m xs h a)

split_found :
    (target : ℕ) (ring : List RingNode) (r : ℕ)
    → IsSorted point_of ring
    → reaches ring target r ≡ true
    → NoneBefore ring target r
    → (drop r ring ≡ select (λ x. leb target x.point) ring)
      × (take r ring ≡ select (λ x. ltb x.point target) ring)
split_found target [] r s hit low = cc
split_found target (x ∷ ring) zero (a, s) hit low =
    ground (arith, select-All target (point_of x) ring (ground arith) a)
split_found target (x ∷ ring) (suc r) (a, s) hit low =
    ground (
      arith,
      low 0 (omega arith),
      split_found target ring r s hit (λ j h. low (suc j) (omega arith)),
    )

split_missed :
    (target : ℕ) (ring : List RingNode)
    → NoneBefore ring target (length ring)
    → (select (λ x. leb target x.point) ring ≡ []) × (select (λ x. ltb x.point target) ring ≡ ring)
split_missed target [] low = (refl, refl)
split_missed target (x ∷ ring) low =
    ground (arith, low 0 (omega arith), split_missed target ring (λ j h. low (suc j) (omega arith)))

rotated-clockwise :
    (target : ℕ) (ring : List RingNode)
    → IsSorted point_of ring
    → rotated ring (search ring target) ≡ clockwise target ring
rotated-clockwise target ring s = elim (search-IsSuccessor ring target s) [
  | inl (hit, low) ↦
      let (later, earlier) = split_found target ring (search ring target) s hit low in
      rw (later, earlier)
  | inr (z, low) ↦
      let (none_later, all_earlier) = split_missed target ring low in
      rw (z, none_later, all_earlier) (append-nil ring)
]

-- On a sorted ring the candidates of a key are the distinct slaves of the nodes at or past the hash of
-- the key, followed by those of the nodes before it, each part in the order of the ring, those that are
-- not alive left out, and cut to `count`.
pub candidates-clockwise :
    (ring : List RingNode) (key : String) (count : ℕ) (alive : Option (String → Bool))
    → IsSorted point_of ring
    → candidates ring key count alive
      ≡ take count
          (select (is_alive alive) (distinct [] (map slave_of (clockwise (hash_string key) ring))))
candidates-clockwise ring key count alive sorted =
    candidates-rotated ring key count alive sorted
    ∙ ap (λ r. take count (select (is_alive alive) (distinct [] (map slave_of r))))
        (rotated-clockwise (hash_string key) ring sorted)

-- ===== src/Placement/Removal.antt =====
-- src/placement/consistent-hash.ts: taking workers away moves no key between those that stay.
use opencode_master.Base.{
  ℕ, zero, suc, String, Bool, true, ◌≡◌, refl, ◌≤◌, arith, List, [], ◌∷◌, ◌++◌, take, select,
  IsSorted, All, leb, ltb, sort_by, insert_by, sort_by-IsSorted, if◌then◌else◌, All-le_trans,
  contains, sym, map, false, none, ap, ◌∙◌, some,
}
use opencode_master.Placement.{
  RingNode, RingEntry, point_of, vnodes_of, nodes_of, vnode_count, is_alive, candidates, build_ring,
  hash_string,
}
use opencode_master.Placement.Ring.{build_ring-IsSorted}
use opencode_master.Placement.Clockwise.{clockwise, candidates-clockwise}
use opencode_master.Placement.Walk.{distinct, slave_of}

module _ (keep : String → Bool) where
  kept : List RingNode → List RingNode
  kept = select (λ x. keep x.slave_id)

  insert_by-All :
      (x : RingNode) (ys : List RingNode)
      → All (λ y. point_of x ≤ point_of y) ys
      → insert_by point_of x (kept ys) ≡ x ∷ kept ys
  unfolding kept
  insert_by-All x [] _ = refl
  insert_by-All x (y ∷ ys) (p, a) = ground (arith, insert_by-All x ys a)

  kept-insert_by :
      (x : RingNode) (ys : List RingNode)
      → IsSorted point_of ys
      → kept (insert_by point_of x ys)
        ≡ (if keep x.slave_id then insert_by point_of x (kept ys) else kept ys)
  unfolding kept
  kept-insert_by x [] _ = ground arith
  kept-insert_by x (y ∷ ys) (a, s) = ground (
    arith,
    kept-insert_by x ys s,
    insert_by-All x (y ∷ ys),
    All-le_trans point_of (point_of x) (point_of y) ys,
    a,
  )

  kept-append : (xs ys : List RingNode) → kept (xs ++ ys) ≡ kept xs ++ kept ys
  unfolding kept
  kept-append [] ys = refl
  kept-append (x ∷ xs) ys = ground (arith, kept-append xs ys)

  kept-sort_by : (xs : List RingNode) → kept (sort_by point_of xs) ≡ sort_by point_of (kept xs)
  unfolding kept sort_by
  kept-sort_by [] = refl
  kept-sort_by (x ∷ xs) = ground (
    arith,
    kept-insert_by x (sort_by point_of xs) (sort_by-IsSorted point_of xs),
    kept-sort_by xs,
  )

  kept-vnodes_of :
      (id : String) (first n : ℕ)
      → kept (vnodes_of id first n) ≡ (if keep id then vnodes_of id first n else [])
  unfolding kept vnodes_of
  kept-vnodes_of id first zero = ground arith
  kept-vnodes_of id first (suc n) = ground (arith, kept-vnodes_of id (suc first) n)

  staying : List RingEntry → List RingEntry
  staying = select (λ entry. keep entry.id)

  kept-nodes_of :
      (entries : List RingEntry) (vnodes : ℕ)
      → kept (nodes_of entries vnodes) ≡ nodes_of (staying entries) vnodes
  unfolding kept nodes_of staying
  kept-nodes_of [] vnodes = refl
  kept-nodes_of (entry ∷ entries) vnodes = ground (
    arith,
    kept-append (vnodes_of entry.id 0 (vnode_count vnodes entry)) (nodes_of entries vnodes),
    kept-vnodes_of entry.id 0 (vnode_count vnodes entry),
    kept-nodes_of entries vnodes,
  )

  build_ring-staying :
      (entries : List RingEntry) (vnodes : ℕ)
      → build_ring (staying entries) vnodes ≡ kept (build_ring entries vnodes)
  unfolding build_ring
  build_ring-staying entries vnodes =
      ap (sort_by point_of) (sym (kept-nodes_of entries vnodes))
      ∙ sym (kept-sort_by (nodes_of entries vnodes))

  select-kept : (p : RingNode → Bool) (xs : List RingNode) → select p (kept xs) ≡ kept (select p xs)
  unfolding kept
  select-kept p [] = refl
  select-kept p (x ∷ xs) = ground (arith, select-kept p xs)

  clockwise-kept :
      (target : ℕ) (ring : List RingNode)
      → clockwise target (kept ring) ≡ kept (clockwise target ring)
  clockwise-kept target ring =
      rw (select-kept (λ x. leb target x.point) ring, select-kept (λ x. ltb x.point target) ring)
        (sym (
          kept-append (select (λ x. leb target x.point) ring)
            (select (λ x. ltb x.point target) ring)))

  map-kept : (xs : List RingNode) → map slave_of (kept xs) ≡ select keep (map slave_of xs)
  unfolding kept
  map-kept [] = refl
  map-kept (x ∷ xs) = ground (arith, map-kept xs)

  -- Ids that are not kept make no difference among the seen ones.
  abbrev Agree : List String → List String → Type 0
  Agree seen seen' = (k : String) → keep k ≡ true → contains seen k ≡ contains seen' k

  distinct-Agree :
      (seen seen' xs : List String)
      → Agree seen seen'
      → distinct seen (select keep xs) ≡ distinct seen' (select keep xs)
  distinct-Agree seen seen' [] h = refl
  distinct-Agree seen seen' (x ∷ xs) h = ground (
    arith,
    h x,
    distinct-Agree seen seen' xs h,
    distinct-Agree (x ∷ seen) (x ∷ seen') xs (λ k p. ground (arith, h k p)),
  )

  select-distinct :
      (seen xs : List String) → select keep (distinct seen xs) ≡ distinct seen (select keep xs)
  select-distinct seen [] = refl
  select-distinct seen (x ∷ xs) = ground (
    arith,
    select-distinct seen xs,
    select-distinct (x ∷ seen) xs,
    λ (dropped : keep x ≡ false). distinct-Agree (x ∷ seen) seen xs (λ k p. ground arith),
  )

select-everything : (xs : List String) → select (is_alive none) xs ≡ xs
select-everything [] = refl
select-everything (x ∷ xs) = ap (◌∷◌ x) (select-everything xs)

-- Consistent hashing: on the ring of the workers that stay, every key has the candidates that it has
-- on the ring of all workers with the others reported dead.
pub candidates-staying :
    (entries : List RingEntry) (vnodes : ℕ) (key : String) (count : ℕ) (keep : String → Bool)
    → candidates (build_ring (select (λ entry. keep entry.id) entries) vnodes) key count none
      ≡ candidates (build_ring entries vnodes) key count (some keep)
unfolding staying
candidates-staying entries vnodes key count keep =
    let ring = build_ring entries vnodes in
    let target = hash_string key in
    candidates-clockwise (build_ring (staying keep entries) vnodes) key count none
      (build_ring-IsSorted (staying keep entries) vnodes)
    ∙ ap (take count) (select-everything _)
    ∙ ap (λ r. take count (distinct [] (map slave_of (clockwise target r))))
        (build_ring-staying keep entries vnodes)
    ∙ ap (λ r. take count (distinct [] (map slave_of r))) (clockwise-kept keep target ring)
    ∙ ap (λ ids. take count (distinct [] ids)) (map-kept keep (clockwise target ring))
    ∙ ap (take count) (sym (select-distinct keep [] (map slave_of (clockwise target ring))))
    ∙ sym (candidates-clockwise ring key count (some keep) (build_ring-IsSorted entries vnodes))

-- ===== src/Placement/Choice.antt =====
-- src/placement: what the candidates are, and which of them is chosen by load.
use opencode_master.Base.{
  ℕ, zero, suc, String, Option, Bool, true, false, ◌≡◌, refl, ap, ◌∙◌, ◌≤◌, ◌<◌, arith, List, [],
  ◌∷◌, length, take, drop, map, select, contains, ◌&&◌, not, ◌||◌, length-take,
}
use opencode_master.Placement.{
  RingNode, RingEntry, build_ring, hash_string, search, candidates, is_alive,
}
use opencode_master.Placement.Walk.{candidates-rotated, rotated, slave_of, distinct}
use opencode_master.Placement.Ring.{
  build_ring-IsSorted, contains-build_ring, contains-append, node_ids, entry_ids,
}

-- No id stands twice.
abbrev pub IsDistinct : List String → Type 0
IsDistinct [] = Unit
IsDistinct (x ∷ xs) = (contains xs x ≡ false) × IsDistinct xs

contains-distinct :
    (seen xs : List String) (k : String)
    → contains (distinct seen xs) k ≡ (contains xs k && not (contains seen k))
contains-distinct seen [] k = refl
contains-distinct seen (x ∷ xs) k =
    ground (arith, contains-distinct seen xs k, contains-distinct (x ∷ seen) xs k)

distinct-IsDistinct : (seen xs : List String) → IsDistinct (distinct seen xs)
distinct-IsDistinct seen [] = tt
distinct-IsDistinct seen (x ∷ xs) = ground (
  arith,
  distinct-IsDistinct seen xs,
  distinct-IsDistinct (x ∷ seen) xs,
  contains-distinct (x ∷ seen) xs x,
)

contains-select :
    (p : String → Bool) (xs : List String) (k : String)
    → contains (select p xs) k ≡ (contains xs k && p k)
contains-select p [] k = refl
contains-select p (x ∷ xs) k = ground (arith, contains-select p xs k)

select-IsDistinct :
    (p : String → Bool) (xs : List String) → IsDistinct xs → IsDistinct (select p xs)
select-IsDistinct p [] _ = tt
select-IsDistinct p (x ∷ xs) (n, u) =
    ground (arith, select-IsDistinct p xs u, contains-select p xs x)

contains-take :
    (n : ℕ) (xs : List String) (k : String) → contains (take n xs) k ≡ true → contains xs k ≡ true
contains-take zero xs k h = cc
contains-take (suc n) [] k h = h
contains-take (suc n) (x ∷ xs) k h = ground (arith, contains-take n xs k)

take-IsDistinct : (n : ℕ) (xs : List String) → IsDistinct xs → IsDistinct (take n xs)
take-IsDistinct zero xs u = tt
take-IsDistinct (suc n) [] u = tt
take-IsDistinct (suc n) (x ∷ xs) (m, u) =
    ground (arith, take-IsDistinct n xs u, contains-take n xs x)

take-short : (n : ℕ) (xs : List String) → length (take n xs) < n → take n xs ≡ xs
take-short zero xs h = absurd (omega arith)
take-short (suc n) [] h = refl
take-short (suc n) (x ∷ xs) h = ap (◌∷◌ x) (take-short n xs (omega arith))

contains-split :
    (idx : ℕ) (ring : List RingNode) (k : String)
    → contains (node_ids ring) k
      ≡ (contains (node_ids (take idx ring)) k || contains (node_ids (drop idx ring)) k)
contains-split zero ring k = refl
contains-split (suc idx) [] k = refl
contains-split (suc idx) (x ∷ ring) k = ground (arith, contains-split idx ring k)

contains-rotated :
    (idx : ℕ) (ring : List RingNode) (k : String)
    → contains (map slave_of (rotated ring idx)) k ≡ contains (node_ids ring) k
contains-rotated idx ring k =
    ground (arith, contains-append k (drop idx ring) (take idx ring), contains-split idx ring k)

-- The candidates of a user among the workers of a ring are at most `count` different workers, all
-- of them on the ring and alive; and only if there are fewer than `count` of these is the list
-- shorter, and then it has them all.
pub candidates_lem :
    (entries : List RingEntry) (vnodes : ℕ) (key : String) (count : ℕ)
    (alive : Option (String → Bool))
    → let out = candidates (build_ring entries vnodes) key count alive in
      (length out ≤ count)
      × IsDistinct out
      × ((k : String)
          → contains out k ≡ true
          → (contains (entry_ids entries) k ≡ true) × (is_alive alive k ≡ true))
      × (length out < count
          → (k : String) → contains (entry_ids entries) k ≡ true
          → is_alive alive k ≡ true
          → contains out k ≡ true)
candidates_lem entries vnodes key count alive =
    let ring = build_ring entries vnodes in
    let ids = map slave_of (rotated ring (search ring (hash_string key))) in
    let live = select (is_alive alive) (distinct [] ids) in
    let out-eq = candidates-rotated ring key count alive (build_ring-IsSorted entries vnodes) in
    let held = λ (k : String).
      contains-select (is_alive alive) (distinct [] ids) k
      ∙ ap (λ b. b && is_alive alive k)
          (contains-distinct [] ids k
            ∙ ap (λ b. b && true)
                (contains-rotated (search ring (hash_string key)) ring k
                  ∙ contains-build_ring k entries vnodes)) in
    rw out-eq (
      omega (arith, length-take count live),
      take-IsDistinct count live
          (select-IsDistinct (is_alive alive) (distinct [] ids) (distinct-IsDistinct [] ids)),
      λ k h. let member = contains-take count live k h in ground (arith, held k),
      λ short k on_ring ok. rw (take-short count live short) (ground (arith, held k)),
    )

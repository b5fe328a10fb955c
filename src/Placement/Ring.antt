-- ===== src/Placement/Ring.antt =====
-- src/placement/consistent-hash.ts: the ring of a list of workers is sorted and holds each of them.
use opencode_master.Base.{
  ℕ, zero, suc, String, ◌≡◌, refl, arith, List, [], ◌∷◌, ◌++◌, map, contains, IsSorted, sort_by,
  sort_by-IsSorted, insert_by, ◌||◌, ◌∙◌, ◌-◌,
}
use opencode_master.Placement.{
  RingNode, RingEntry, point_of, vnodes_of, nodes_of, build_ring, vnode_count,
}

abbrev pub node_ids : List RingNode → List String
node_ids = map (λ node. node.slave_id)

abbrev pub entry_ids : List RingEntry → List String
entry_ids = map (λ entry. entry.id)

pub build_ring-IsSorted :
    (entries : List RingEntry) (vnodes : ℕ) → IsSorted point_of (build_ring entries vnodes)
unfolding build_ring
build_ring-IsSorted entries vnodes = sort_by-IsSorted point_of (nodes_of entries vnodes)

contains-insert_by :
    (k : String) (x : RingNode) (ys : List RingNode)
    → contains (node_ids (insert_by point_of x ys)) k ≡ contains (node_ids (x ∷ ys)) k
contains-insert_by k x [] = refl
contains-insert_by k x (y ∷ ys) = ground (arith, contains-insert_by k x ys)

contains-sort_by :
    (k : String) (xs : List RingNode)
    → contains (node_ids (sort_by point_of xs)) k ≡ contains (node_ids xs) k
unfolding sort_by
contains-sort_by k [] = refl
contains-sort_by k (x ∷ xs) =
    ground (arith, contains-insert_by k x (sort_by point_of xs), contains-sort_by k xs)

pub contains-append :
    (k : String) (xs ys : List RingNode)
    → contains (node_ids (xs ++ ys)) k ≡ (contains (node_ids xs) k || contains (node_ids ys) k)
contains-append k [] ys = refl
contains-append k (x ∷ xs) ys = ground (arith, contains-append k xs ys)

contains-vnodes_of :
    (k id : String) (first n : ℕ)
    → contains (node_ids (vnodes_of id first (suc n))) k ≡ contains (id ∷ []) k
unfolding vnodes_of
contains-vnodes_of k id first zero = refl
contains-vnodes_of k id first (suc n) = ground (arith, contains-vnodes_of k id (suc first) n)

contains-nodes_of :
    (k : String) (entries : List RingEntry) (vnodes : ℕ)
    → contains (node_ids (nodes_of entries vnodes)) k ≡ contains (entry_ids entries) k
unfolding nodes_of
contains-nodes_of k [] vnodes = refl
contains-nodes_of k (entry ∷ entries) vnodes =
    let count = vnode_count vnodes entry in
    let e : count ≡ suc (count - 1) = omega arith in
    rw e (
      ground (
        arith,
        contains-append k (vnodes_of entry.id 0 (suc (count - 1))) (nodes_of entries vnodes),
        contains-vnodes_of k entry.id 0 (count - 1),
        contains-nodes_of k entries vnodes,
      ))

-- Whatever the weights, the ring has a node for exactly the workers that it is built from.
pub contains-build_ring :
    (k : String) (entries : List RingEntry) (vnodes : ℕ)
    → contains (node_ids (build_ring entries vnodes)) k ≡ contains (entry_ids entries) k
unfolding build_ring
contains-build_ring k entries vnodes =
    contains-sort_by k (nodes_of entries vnodes) ∙ contains-nodes_of k entries vnodes

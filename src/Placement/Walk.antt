-- ===== src/Placement/Walk.antt =====
-- src/placement/consistent-hash.ts: the candidates of a key, against an independent description:
-- the distinct slaves in clockwise order, of which the live ones are kept and cut to the count.
use opencode_master.Base.{
  ℕ, zero, suc, String, ◌≡◌, refl, inl, inr, ◌≤◌, ◌<◌, arith, List, [], ◌∷◌, ◌++◌, length, take,
  drop, get_elem?, map, select, contains, ◌+◌, ◌%◌, ◌∙◌, Option, some, dec_lt, true, none, Bool,
  length-append, ◌-◌, length-drop, ap, mod-eq_of_lt, add-one, sym, length-take, mod-eq-sub-mod,
  IsSorted, false, append-nil, Bool-cases, ltb, append_assoc, true-ne-false, Option-cases,
}
use opencode_master.Placement.{
  RingNode, point_of, hash_string, search, visit, walk, candidates, is_alive,
}
use opencode_master.Placement.Search.{search-IsSuccessor, reaches-past}

-- The ring from index `idx` on, and round to it.
abbrev pub rotated : List RingNode → ℕ → List RingNode
rotated ring idx = drop idx ring ++ take idx ring

abbrev pub slave_of : RingNode → String
slave_of node = node.slave_id

-- The ids not yet seen, each at its first place.
abbrev pub distinct : List String → List String → List String
distinct seen [] = []
distinct seen (x ∷ xs) = elim (contains seen x) [
  | true ↦ distinct seen xs
  | false ↦ x ∷ distinct (x ∷ seen) xs
]

get_elem?-append_left :
    (xs ys : List RingNode) (i : ℕ) → i < length xs → get_elem? (xs ++ ys) i ≡ get_elem? xs i
get_elem?-append_left [] ys i h = absurd (omega arith)
get_elem?-append_left (x ∷ xs) ys zero h = refl
get_elem?-append_left (x ∷ xs) ys (suc i) h = get_elem?-append_left xs ys i (omega arith)

get_elem?-append_right :
    (xs ys : List RingNode) (i : ℕ) → get_elem? (xs ++ ys) (length xs + i) ≡ get_elem? ys i
get_elem?-append_right [] ys i = ground arith
get_elem?-append_right (x ∷ xs) ys i =
    let e : length (x ∷ xs) + i ≡ suc (length xs + i) = omega arith in
    rw e (get_elem?-append_right xs ys i)

get_elem?-drop :
    (n : ℕ) (xs : List RingNode) (i : ℕ) → get_elem? (drop n xs) i ≡ get_elem? xs (n + i)
get_elem?-drop zero xs i = ground arith
get_elem?-drop (suc n) [] i = refl
get_elem?-drop (suc n) (x ∷ xs) i =
    let e : suc n + i ≡ suc (n + i) = omega arith in rw e (get_elem?-drop n xs i)

get_elem?-take :
    (n : ℕ) (xs : List RingNode) (i : ℕ) → i < n → get_elem? (take n xs) i ≡ get_elem? xs i
get_elem?-take zero xs i h = absurd (omega arith)
get_elem?-take (suc n) [] i h = refl
get_elem?-take (suc n) (x ∷ xs) zero h = refl
get_elem?-take (suc n) (x ∷ xs) (suc i) h = get_elem?-take n xs i (omega arith)

-- Stepping round the ring by the remainder reads the rotated list from left to right.
get_elem?-rotated :
    (ring : List RingNode) (idx i : ℕ)
    → idx < length ring
    → i < length ring
    → get_elem? ring ((idx + i) % length ring) ≡ get_elem? (rotated ring idx) i
get_elem?-rotated ring idx i h k = elim (dec_lt (idx + i) (length ring)) [
  | yes in_range ↦
      let e : (idx + i) % length ring ≡ idx + i = mod-eq_of_lt in_range in
      rw e (
        sym (
          get_elem?-append_left (drop idx ring) (take idx ring) i
            (omega (arith, length-drop idx ring))
          ∙ get_elem?-drop idx ring i))
  | no beyond ↦
      let back : ℕ = idx + i - length ring in
      let e : (idx + i) % length ring ≡ back =
        mod-eq-sub-mod (omega arith) ∙ mod-eq_of_lt (omega arith) in
      let place : i ≡ length (drop idx ring) + back = omega (arith, length-drop idx ring) in
      rw e (
        sym (
          ap (get_elem? (rotated ring idx)) place
          ∙ get_elem?-append_right (drop idx ring) (take idx ring) back
          ∙ get_elem?-take idx ring back (omega arith)))
]

-- The ids that the rounds from `i` on read.
turn : List RingNode → ℕ → ℕ → ℕ → List String
turn ring idx zero i = []
turn ring idx (suc rounds) i = elim (get_elem? ring ((idx + i) % length ring)) [
  | none ↦ []
  | some node ↦ slave_of node ∷ turn ring idx rounds (i + 1)
]

drop-get_elem? :
    (xs : List RingNode) (i : ℕ) (x : RingNode)
    → get_elem? xs i ≡ some x
    → drop i xs ≡ x ∷ drop (suc i) xs
drop-get_elem? [] i x e = cc
drop-get_elem? (y ∷ xs) zero x e = ground arith
drop-get_elem? (y ∷ xs) (suc i) x e = drop-get_elem? xs i x e

get_elem?-some :
    (xs : List RingNode) (i : ℕ) → i < length xs → (x : RingNode) × (get_elem? xs i ≡ some x)
get_elem?-some [] i h = absurd (omega arith)
get_elem?-some (x ∷ xs) zero h = (x, refl)
get_elem?-some (x ∷ xs) (suc i) h = get_elem?-some xs i (omega arith)

drop-length : (xs : List RingNode) (i : ℕ) → length xs ≤ i → drop i xs ≡ []
drop-length [] zero h = refl
drop-length [] (suc i) h = refl
drop-length (x ∷ xs) zero h = absurd (omega arith)
drop-length (x ∷ xs) (suc i) h = drop-length xs i (omega arith)

length-rotated :
    (ring : List RingNode) (idx : ℕ) → idx < length ring → length (rotated ring idx) ≡ length ring
length-rotated ring idx h = omega (
  arith,
  length-append (drop idx ring) (take idx ring),
  length-drop idx ring,
  length-take idx ring,
)

module _ (ring : List RingNode) (idx : ℕ) (inside : idx < length ring) where
  turn-rotated :
      (rounds i : ℕ)
      → i + rounds ≡ length ring
      → turn ring idx rounds i ≡ map slave_of (drop i (rotated ring idx))
  unfolding turn
  turn-rotated zero i h =
      rw (drop-length (rotated ring idx) i (omega (arith, length-rotated ring idx inside)))
  turn-rotated (suc rounds) i h =
      let (x, here) =
        get_elem?-some (rotated ring idx) i (omega (arith, length-rotated ring idx inside)) in
      let read = get_elem?-rotated ring idx i inside (omega arith) ∙ here in
      rw (read, turn, drop-get_elem? (rotated ring idx) i x here)
        (ap (◌∷◌ (slave_of x)) (
          turn-rotated rounds (i + 1) (omega arith)
          ∙ ap (λ k. map slave_of (drop k (rotated ring idx))) (add-one i)))

-- What is left to choose, by the description.
abbrev chosen : ℕ → (String → Bool) → List String → List String → List String
chosen room alive seen ids = take room (select alive (distinct seen ids))

take-nil : (n : ℕ) → take n [] ≡ let none_left : List String = [] in none_left
take-nil zero = refl
take-nil (suc n) = refl

-- The last chosen id uses up one place.
chosen-alive :
    (count : ℕ) (alive : String → Bool) (seen out ids : List String) (x : String)
    → length out < count
    → contains seen x ≡ false
    → alive x ≡ true
    → (out ++ x ∷ []) ++ chosen (count - length (out ++ x ∷ [])) alive (x ∷ seen) ids
      ≡ out ++ chosen (count - length out) alive seen (x ∷ ids)
chosen-alive count alive seen out ids x h new ok =
    let e : count - length out ≡ suc (count - length (out ++ x ∷ [])) =
      omega (arith, length-append out (x ∷ [])) in
    rw e (
      ground (
        arith,
        append_assoc out (x ∷ []) (chosen (count - length (out ++ x ∷ [])) alive (x ∷ seen) ids),
      ))

module _ (count : ℕ) (alive : Option (String → Bool))
    (rest : List String → List String → List String) (ids : List String) where
  visited :
      (x : String) (seen out : List String)
      → length out < count
      → ((seen' out' : List String)
          → rest seen' out' ≡ out' ++ chosen (count - length out') (is_alive alive) seen' ids)
      → rest (visit alive x seen out).0 (visit alive x seen out).1
        ≡ out ++ chosen (count - length out) (is_alive alive) seen (x ∷ ids)
  unfolding visit
  visited x seen out h ih = ground (
    arith,
    ih seen out,
    ih (x ∷ seen) out,
    ih (x ∷ seen) (out ++ x ∷ []),
    chosen-alive count (is_alive alive) seen out ids x h,
  )

walk-chosen :
    (ring : List RingNode) (idx count : ℕ) (alive : Option (String → Bool)) (rounds i : ℕ)
    (seen out : List String)
    → walk ring idx count alive rounds i seen out
      ≡ out ++ chosen (count - length out) (is_alive alive) seen (turn ring idx rounds i)
unfolding walk turn
walk-chosen ring idx count alive zero i seen out =
    rw (take-nil (count - length out), append-nil out)
walk-chosen ring idx count alive (suc rounds) i seen out =
    elim (Bool-cases (ltb (length out) count)) [
      | inr full ↦ let e : count - length out ≡ 0 = ground arith in rw (full, e, append-nil out)
      | inl room ↦ elim (Option-cases (get_elem? ring ((idx + i) % length ring))) [
        | inl gone ↦ rw (room, gone, turn, take-nil (count - length out), append-nil out)
        | inr (x, here) ↦
            rw (room, here, turn)
              (visited count alive (walk ring idx count alive rounds (i + 1))
                (turn ring idx rounds (i + 1)) x.slave_id seen out (ground arith)
                (walk-chosen ring idx count alive rounds (i + 1)))
      ]
    ]

search-inside :
    (ring : List RingNode) (target : ℕ)
    → IsSorted point_of ring
    → 0 < length ring
    → search ring target < length ring
search-inside ring target sorted pos = elim (search-IsSuccessor ring target sorted) [
  | inr (z, _) ↦ omega arith
  | inl (hit, _) ↦ elim (dec_lt (search ring target) (length ring)) [
    | yes h ↦ h
    | no past ↦
        absurd (true-ne-false hit (reaches-past ring target (search ring target) (omega arith)))
  ]
]

-- On a sorted ring the candidates of a key are the distinct slaves in the order in which the ring is
-- met clockwise from the key's successor, those that are not alive left out, and cut to `count`.
pub candidates-rotated :
    (ring : List RingNode) (key : String) (count : ℕ) (alive : Option (String → Bool))
    → IsSorted point_of ring
    → candidates ring key count alive
      ≡ take count (
          select
            (is_alive alive)
            (distinct [] (map slave_of (rotated ring (search ring (hash_string key))))))
unfolding candidates
candidates-rotated [] key count alive sorted = sym (take-nil count)
candidates-rotated (node ∷ ring) key count alive sorted =
    let idx = search (node ∷ ring) (hash_string key) in
    walk-chosen (node ∷ ring) idx count alive (length (node ∷ ring)) 0 [] []
    ∙ ap (λ n. chosen n (is_alive alive) [] (turn (node ∷ ring) idx (length (node ∷ ring)) 0))
        (omega arith)
    ∙ ap (λ ids. take count (select (is_alive alive) (distinct [] ids)))
        (turn-rotated (node ∷ ring) idx
          (search-inside (node ∷ ring) (hash_string key) sorted (omega arith))
          (length (node ∷ ring)) 0 (omega arith))

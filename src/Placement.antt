-- ===== src/Placement.antt =====
-- src/placement/consistent-hash.ts: the hash ring that places users on workers. A JavaScript string
-- is read as its UTF-16 code units; the 32-bit operations are written with their wrap-around. The
-- weight of an entry is a whole number, so that `Math.round` has nothing to round.
pub mod Choice
pub mod Clockwise
pub mod Load
pub mod Removal
pub mod Ring
pub mod Search
pub mod Walk
mod Tests
use Prim.Native.Nat.{bit_xor}
use Prim.Native.Char.{code}
use Prim.Native.String
use opencode_master.Base.{
  ℕ, zero, suc, String, Option, none, some, Bool, true, false, List, [], ◌∷◌, ◌++◌, ◌+◌, ◌*◌, ◌/◌,
  ◌%◌, ◌^◌, ◌-◌, max, ltb, leb, if◌then◌else◌, get_elem?, length, contains, or_else, template,
  sort_by, decimal,
}

abbrev pub u32 : ℕ
u32 = 4294967296

-- The UTF-16 code units of a text, which `charCodeAt` reads.
code_units : String → List ℕ
code_units String.[] = []
code_units (String.◌∷◌ c s) =
    let rest = code_units s in
    if ltb (code c) 0x10000
    then code c ∷ rest
    else (0xd800 + (code c - 0x10000) / 0x400) ∷ ((0xdc00 + (code c - 0x10000) % 0x400) ∷ rest)

-- `h ^ c` on 32-bit values, and `Math.imul`, as unsigned bit patterns.
xor32 : ℕ → ℕ → ℕ
xor32 a b = bit_xor a b % u32

imul : ℕ → ℕ → ℕ
imul a b = a * b % u32

fnv : ℕ → List ℕ → ℕ
fnv h [] = h
fnv h (c ∷ cs) = fnv (imul (xor32 h c) 0x01000193) cs

-- The finalizer of MurmurHash3.
fmix : ℕ → ℕ
fmix h =
    let a = xor32 h (h / 2 ^ 16) in
    let b = imul a 0x85ebca6b in
    let c = xor32 b (b / 2 ^ 13) in let d = imul c 0xc2b2ae35 in xor32 d (d / 2 ^ 16)

unfoldable pub hash_string : String → ℕ
unfolding code_units xor32 imul fnv fmix
hash_string input = fmix (fnv 0x811c9dc5 (code_units input))

abbrev pub default_vnodes : ℕ
default_vnodes = 96

pub record RingNode : Type 0 where
  pub point : ℕ
  pub slave_id : String

pub record RingEntry : Type 0 where
  pub id : String
  pub weight : Option ℕ

-- The virtual nodes `first`, `first + 1`, … of an entry.
vnodes_of : String → ℕ → ℕ → List RingNode
vnodes_of id first zero = []
vnodes_of id first (suc n) =
    record { point = hash_string (template (id ∷ ":" ∷ decimal first ∷ [])); slave_id = id }
    ∷ vnodes_of id (suc first) n

abbrev pub vnode_count : ℕ → RingEntry → ℕ
vnode_count vnodes entry = max 1 (vnodes * or_else entry.weight 1)

nodes_of : List RingEntry → ℕ → List RingNode
nodes_of [] vnodes = []
nodes_of (entry ∷ entries) vnodes =
    vnodes_of entry.id 0 (vnode_count vnodes entry) ++ nodes_of entries vnodes

abbrev pub point_of : RingNode → ℕ
point_of node = node.point

unfoldable pub build_ring : List RingEntry → ℕ → List RingNode
unfolding nodes_of vnodes_of
build_ring entries vnodes = sort_by point_of (nodes_of entries vnodes)

-- `ring[i].point >= target`.
abbrev pub reaches : List RingNode → ℕ → ℕ → Bool
reaches ring target i = elim (get_elem? ring i) [ none ↦ false | some node ↦ leb target node.point ]

-- The binary search. `end` is the source's `hi + 1`, so that the window may end before index 0.
search_from : ℕ → List RingNode → ℕ → ℕ → ℕ → ℕ → ℕ
search_from zero ring target lo end idx = idx
search_from (suc fuel) ring target lo end idx =
    let mid = (lo + (end - 1)) / 2 in
    let below = search_from fuel ring target lo mid mid in
    let above = search_from fuel ring target (mid + 1) end idx in
    if ltb lo end then (if reaches ring target mid then below else above) else idx

unfoldable pub search : List RingNode → ℕ → ℕ
unfolding search_from
search ring target = search_from (length ring) ring target 0 (length ring) 0

-- The optional filter of the candidates.
abbrev pub is_alive : Option (String → Bool) → String → Bool
is_alive none id = true
is_alive (some alive) id = alive id

-- One round of the walk: the slaves seen and the slaves chosen.
visit : Option (String → Bool) → String → List String → List String → List String × List String
visit alive id seen out =
    if contains seen id
    then (seen, out)
    else if is_alive alive id
    then (id ∷ seen, out ++ id ∷ [])
    else (id ∷ seen, out)

walk :
    List RingNode → ℕ → ℕ → Option (String → Bool) → ℕ → ℕ → List String → List String → List String
walk ring idx count alive zero i seen out = out
walk ring idx count alive (suc rounds) i seen out =
    let next : List String = elim (get_elem? ring ((idx + i) % length ring)) [
      | none ↦ out
      | some node ↦
          let (seen', out') = visit alive node.slave_id seen out in
          walk ring idx count alive rounds (i + 1) seen' out'
    ] in
    if ltb (length out) count then next else out

unfoldable pub candidates : List RingNode → String → ℕ → Option (String → Bool) → List String
unfolding search walk visit
candidates [] key count alive = []
candidates (node ∷ nodes) key count alive =
    let ring = node ∷ nodes in
    walk ring (search ring (hash_string key)) count alive (length ring) 0 [] []

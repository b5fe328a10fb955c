-- ===== src/Placement/Tests.antt =====
-- src/placement/consistent-hash.ts and src/placement/load.ts, run on a ring of three workers.
use opencode_master.Base.{
  none, some, List, [], ◌∷◌, ◌≡◌, refl, map, select, take, String, Bool, not, ◌==◌,
}
use opencode_master.Placement.{RingEntry, build_ring, candidates, hash_string}
use opencode_master.Placement.Ring.{build_ring-IsSorted}
use opencode_master.Placement.Clockwise.{candidates-clockwise, clockwise}
use opencode_master.Placement.Walk.{distinct, slave_of}
use opencode_master.Placement.Removal.{candidates-staying}

abbrev entries : List RingEntry
entries =
    record { id = "a"; weight = none }
    ∷ record { id = "b"; weight = some 2 }
    ∷ record { id = "c"; weight = none }
    ∷ []

abbrev not_b : String → Bool
not_b id = not (id == "b")

-- The values that `hashString` has in the source, on texts of one and of two code units too.
hash_of_nothing : hash_string "" ≡ 2872998923
unfolding hash_string
hash_of_nothing = refl

hash_of_vnode : hash_string "worker-1:0" ≡ 1974668416
unfolding hash_string
hash_of_vnode = refl

hash_of_pair : hash_string "é😀" ≡ 4159213040
unfolding hash_string
hash_of_pair = refl

candidates-clockwise_example :
    candidates (build_ring entries 2) "u" 2 (some not_b)
    ≡ take 2 (
        select not_b
          (distinct [] (map slave_of (clockwise (hash_string "u") (build_ring entries 2)))))
candidates-clockwise_example =
    candidates-clockwise (build_ring entries 2) "u" 2 (some not_b) (build_ring-IsSorted entries 2)

candidates-staying_example :
    candidates (build_ring (select (λ entry. not_b entry.id) entries) 2) "u" 2 none
    ≡ candidates (build_ring entries 2) "u" 2 (some not_b)
candidates-staying_example = candidates-staying entries 2 "u" 2 not_b

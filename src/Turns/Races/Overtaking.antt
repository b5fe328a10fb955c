-- ===== src/Turns/Races/Overtaking.antt =====
-- src/services/turn-service.ts: two calls of `createOrGet` that overtake one another.
use opencode_master.Base.{
  step_nth, String, none, some, true, false, List, [], ◌∷◌, ◌++◌, find?, find?-append, ◌≡◌, arith,
  refl, map, ℕ, All, merges, All-through, has_key, ◌==◌, ap, ◌∙◌,
}
use opencode_master.Types.{TurnRow, returns}
use opencode_master.Database.{Database}
use opencode_master.Turns
use opencode_master.Turns.{
  TurnInput, TurnFresh, insert_turn, key_of, new_turn, is_keyed_of, is_active_of, to_row, turn_id,
}
use opencode_master.Turns.Created.{with_turn, get-last}
use opencode_master.Turns.Unique.{HasOneActive}
use opencode_master.Turns.Races.{
  Event, Running, Stage, steps, happen, happen_all, step, started, ends, insert_indexed,
}

keyed-none :
    (s k : String) (xs : List TurnRow) (y : TurnRow)
    → find? (is_keyed_of s k) xs ≡ none
    → is_keyed_of s k y ≡ false
    → find? (is_keyed_of s k) (xs ++ y ∷ []) ≡ none
keyed-none s k [] y e h = ground (arith, h)
keyed-none s k (x ∷ xs) y e h = ground (arith, e, keyed-none s k xs y)

two-HasOneActive :
    (s : String) (xs : List TurnRow) (y z : TurnRow)
    → is_active_of s y ≡ true
    → is_active_of s z ≡ true
    → HasOneActive ((xs ++ y ∷ []) ++ z ∷ [])
    → ⊥
two-HasOneActive s [] y z a b (h, _) = ground (arith, a, b, h)
two-HasOneActive s (x ∷ xs) y z a b (_, rest) = two-HasOneActive s xs y z a b rest

abbrev twice : ℕ → List Event
twice n = steps n ∷ steps n ∷ []

-- The two queries of both calls, in any order.
unfoldable pub queries : List (List Event)
unfolding merges
queries = merges (twice 0) (twice 1)

-- The insert of the first call, and the inserts and the last queries of both after that, in any order.
unfoldable pub writes : List (List Event)
unfolding merges
writes = map (◌∷◌ (steps 0)) (merges (steps 0 ∷ []) (twice 1))

happen_all-append :
    (state : Database × List Running) (xs ys : List Event)
    → happen_all state (xs ++ ys) ≡ happen_all (happen_all state xs) ys
unfolding happen_all
happen_all-append state [] ys = refl
happen_all-append state (x ∷ xs) ys = happen_all-append (happen state x) xs ys

module _ (db : Database) (first second : TurnInput) (f g : TurnFresh)
    (same : second.session_id ≡ first.session_id)
    (free : find? (is_active_of first.session_id) db.turns ≡ none)
    (keyed : find? (is_keyed_of first.session_id (key_of first f)) db.turns ≡ none)
    (also : find? (is_keyed_of second.session_id (key_of second g)) db.turns ≡ none)
    (apart : (key_of first f == key_of second g) ≡ false)
    (unused : find? (has_key turn_id f.id) db.turns ≡ none)
    (new : find? (has_key turn_id g.id) db.turns ≡ none) (differs : (f.id == g.id) ≡ false) where
  abbrev one : TurnRow
  one = new_turn first f (key_of first f)

  abbrev two : TurnRow
  two = new_turn second g (key_of second g)

  second-new : find? (has_key turn_id g.id) (with_turn db one).turns ≡ none
  second-new = ground (arith, find?-append turn_id g.id db.turns one, new, differs)

  first-stays : Turns.get (with_turn (with_turn db one) two) f.id ≡ some (to_row one)
  unfolding Turns.get
  first-stays = ground (
    arith,
    find?-append turn_id f.id db.turns one,
    find?-append turn_id f.id (with_turn db one).turns two,
    unused,
  )

  second-keyed :
      find? (is_keyed_of second.session_id (key_of second g)) (with_turn db one).turns ≡ none
  second-keyed =
      keyed-none second.session_id (key_of second g) db.turns one also (ground (arith, apart))

  second-free : find? (is_active_of second.session_id) db.turns ≡ none
  second-free = ap (λ s. find? (is_active_of s) db.turns) same ∙ free

  abbrev begun : Database × List Running
  begun = (db, started first f ∷ started second g ∷ [])

  abbrev both_checked : Database × List Running
  both_checked = (
    db,
    record (started first f) { stage = Stage.inserting }
        ∷ record (started second g) { stage = Stage.inserting }
        ∷ [],
  )

  abbrev both_created : Database × List Running
  both_created = (
    with_turn (with_turn db one) two,
    ends (started first f) (returns (record { turn = to_row one; created = true }))
        ∷ ends (started second g) (returns (record { turn = to_row two; created = true }))
        ∷ [],
  )

  both-checked : All (λ order. happen_all begun order ≡ both_checked) queries
  unfolding queries happen_all step_nth step
  both-checked = ground (arith, free, keyed, also, second-keyed, second-free)

  both-written : All (λ order. happen_all both_checked order ≡ both_created) writes
  unfolding writes happen_all step_nth step insert_indexed insert_turn
  both-written = ground (
    arith,
    keyed,
    unused,
    second-new,
    second-keyed,
    first-stays,
    get-last db one unused,
    get-last (with_turn db one) two second-new,
  )

  -- Two prompts to a session that has no active turn are both admitted, if they have different keys,
  -- which no turn of the session has, and the queries of both, in any order, come before the inserts of
  -- either: however their statements go on, the first call's insert before the second's, both are
  -- answered with a turn that they have created, and the session has two active turns. The ids that are
  -- drawn for the turns are unused and different.
  pub admits_both :
      All
        (λ asked. All (λ written. happen_all begun (asked ++ written) ≡ both_created) writes)
        queries
      × (HasOneActive both_created.0.turns → ⊥)
  admits_both = (
    All-through happen_all happen_all-append begun both_checked both_created queries writes
        both-checked both-written,
    two-HasOneActive first.session_id db.turns one two (ground arith) (ground (arith, same)),
  )

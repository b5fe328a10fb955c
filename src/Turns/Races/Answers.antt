-- ===== src/Turns/Races/Answers.antt =====
-- src/services/turn-service.ts: what calls of `createOrGet` that run at the same time answer.
use Prim.Native.Nat.{ℕ, zero, suc}
use opencode_master.Base.{
  step_nth, String, Option, none, some, Bool, true, false, List, [], ◌∷◌, ◌++◌, ◌&&◌, find?, ◌≡◌,
  refl, sym, ap, ◌∙◌, subst, arith, inl, inr, Option-cases, has_key, All, get_elem?, map_some,
  Bool-cases,
}
use opencode_master.Types.{TurnRow, returns, throws, internal}
use opencode_master.Database.{Database}
use opencode_master.Turns
use opencode_master.Turns.{Admitted, insert_turn, is_keyed_of, is_active_of, to_row, turn_id}
use opencode_master.Turns.Leases.{perform}
use opencode_master.Turns.Retries.{Names, perform-Names, find?-grown, find?-keyed-append}
use opencode_master.Turns.Races.{
  Running, Stage, looking, checking, inserting, reading, over, Event, steps, does, happen_all,
  step_nth, step, advance, ends, insert_indexed, inserted, looked, checked, read_back, call_turn,
  call_key,
}

-- The turn that a call has is stored under its key; a turn that it has created is its own.
abbrev Fits : List TurnRow → Running → Stage → Type 0
Fits turns call reading = Names turns call.input.session_id (call_key call) call.fresh.id
Fits turns call (over (returns answer)) =
    Names turns call.input.session_id (call_key call) answer.turn.id
    × (answer.created ≡ true → answer.turn.id ≡ call.fresh.id)
Fits turns call _ = Unit

-- What is stored under a key stays.
abbrev Keeps : List TurnRow → List TurnRow → Type 0
Keeps turns after = (s k id : String) → Names turns s k id → Names after s k id

Fits-kept :
    (turns after : List TurnRow) (call : Running) (stage : Stage)
    → Keeps turns after
    → Fits turns call stage
    → Fits after call stage
Fits-kept turns after call looking k f = tt
Fits-kept turns after call checking k f = tt
Fits-kept turns after call inserting k f = tt
Fits-kept turns after call reading k f = k _ _ _ f
Fits-kept turns after call (over (returns answer)) k (n, own) = (k _ _ _ n, own)
Fits-kept turns after call (over (throws e)) k f = tt

-- What a step has to show: the names are kept, and the call fits.
abbrev Steps : Database → Database × Running → Type 0
Steps db (after, next) = Keeps db.turns after.turns × Fits after.turns next next.stage

inserted-Steps :
    (db : Database) (call : Running) → Steps db (inserted call (insert_indexed db (call_turn call)))
unfolding insert_indexed insert_turn
inserted-Steps db call =
    let row = call_turn call in
    elim (Option-cases (find? (is_keyed_of row.session_id row.client_key) db.turns)) [
      | inr (_, taken) ↦
          subst (Steps db)
            {x = (
              db,
              ends call (
                  throws (internal "UNIQUE constraint failed: turns.session_id, turns.client_key")),
            )}
            {y = inserted call (insert_indexed db row)} (ground (arith, taken)) (λ s k id n. n, tt)
      | inl new ↦ elim (Option-cases (find? (has_key turn_id row.id) db.turns)) [
        | inr (_, used) ↦
            subst (Steps db)
              {x = (db, ends call (throws (internal "UNIQUE constraint failed: turns.id")))}
              {y = inserted call (insert_indexed db row)} (ground (arith, new, used))
              (λ s k id n. n, tt)
        | inl unused ↦
            subst (Steps db)
              {x = (record db { turns = db.turns ++ row ∷ [] }, record call { stage = reading })}
              {y = inserted call (insert_indexed db row)} (ground (arith, new, unused))
              (
                λ s k id n. (n.0, find?-grown s k db.turns row n.0 n.1, n.2),
                (
                  row,
                  find?-keyed-append row.session_id row.client_key db.turns row new (ground arith),
                  refl,
                ),
              )
      ]
    ]

get-id :
    (xs : List TurnRow) (id : String) (row : TurnRow)
    → find? (has_key turn_id id) xs ≡ some row
    → row.id ≡ id
get-id [] id row e = ground arith
get-id (x ∷ xs) id row e = ground (arith, get-id xs id row)

looked-Steps :
    (db : Database) (call : Running) (found : Option TurnRow)
    → find? (is_keyed_of call.input.session_id (call_key call)) db.turns ≡ found
    → Steps db (looked db call found)
looked-Steps db call none e = (λ s k id n. n, tt)
looked-Steps db call (some row) e = (λ s k id n. n, ((row, e, refl), λ made. cc))

checked-Steps : (db : Database) (call : Running) (o : Option TurnRow) → Steps db (checked db call o)
checked-Steps db call none = (λ s k id n. n, tt)
checked-Steps db call (some row) = (λ s k id n. n, tt)

read_back-Steps :
    (db : Database) (call : Running) (found : Option TurnRow)
    → find? (has_key turn_id call.fresh.id) db.turns ≡ found
    → Names db.turns call.input.session_id (call_key call) call.fresh.id
    → Steps db (read_back db call (map_some to_row found))
read_back-Steps db call none e f = (λ s k id n. n, tt)
read_back-Steps db call (some row) e (named, stored, same) =
    let own = get-id db.turns call.fresh.id row e in
    (λ s k id n. n, ((named, stored, same ∙ sym own), λ made. own))

advance-Steps :
    (stage : Stage) (db : Database) (call : Running)
    → call.stage ≡ stage
    → Fits db.turns call stage
    → Steps db (advance stage db call)
unfolding Turns.get
advance-Steps looking db call at f =
    looked-Steps db call (find? (is_keyed_of call.input.session_id (call_key call)) db.turns) refl
advance-Steps checking db call at f =
    checked-Steps db call (find? (is_active_of call.input.session_id) db.turns)
advance-Steps inserting db call at f = inserted-Steps db call
advance-Steps reading db call at f =
    read_back-Steps db call (find? (has_key turn_id call.fresh.id) db.turns) refl f
advance-Steps (over result) db call at f = (λ s k id n. n, subst (Fits db.turns call) (sym at) f)

step-Steps :
    (db : Database) (call : Running) → Fits db.turns call call.stage → Steps db (step db call)
unfolding step
step-Steps db call f = advance-Steps call.stage db call refl f

-- All calls fit.
abbrev AllFit : Database × List Running → Type 0
AllFit (db, calls) = All (λ call. Fits db.turns call call.stage) calls

All-kept :
    (turns after : List TurnRow) (calls : List Running)
    → Keeps turns after
    → All (λ call. Fits turns call call.stage) calls
    → All (λ call. Fits after call call.stage) calls
All-kept turns after [] k a = tt
All-kept turns after (call ∷ calls) k (f, a) =
    (Fits-kept turns after call call.stage k f, All-kept turns after calls k a)

step_nth-AllFit :
    (n : ℕ) (db : Database) (calls : List Running)
    → AllFit (db, calls)
    → Keeps db.turns (step_nth step n db calls).0.turns × AllFit (step_nth step n db calls)
unfolding step_nth
step_nth-AllFit n db [] a = (λ s k id named. named, tt)
step_nth-AllFit zero db (call ∷ calls) (f, a) =
    let (kept, fits) = step-Steps db call f in
    (kept, (fits, All-kept db.turns (step db call).0.turns calls kept a))
step_nth-AllFit (suc n) db (call ∷ calls) (f, a) =
    let (kept, fits) = step_nth-AllFit n db calls a in
    (kept, (Fits-kept db.turns (step_nth step n db calls).0.turns call call.stage kept f, fits))

happen_all-AllFit :
    (state : Database × List Running) (events : List Event)
    → AllFit state
    → AllFit (happen_all state events)
unfolding happen_all
happen_all-AllFit state [] a = a
happen_all-AllFit (db, calls) (steps n ∷ events) a =
    happen_all-AllFit (step_nth step n db calls) events (step_nth-AllFit n db calls a).1
happen_all-AllFit (db, calls) (does op ∷ events) a =
    happen_all-AllFit (perform db op, calls) events
      (All-kept db.turns (perform db op).turns calls (λ s k id. perform-Names db op s k id) a)

abbrev pub IsStarted : Running → Type 0
IsStarted call = call.stage ≡ looking

some_inj {ℓ} : {A : Type ℓ} {x y : A} → some x ≡ some y → x ≡ y
some_inj e = cc

not_both :
    {a b c d : String} {made again : Bool}
    → a ≡ b
    → (made ≡ true → a ≡ c)
    → (again ≡ true → b ≡ d)
    → (c ≡ d → ⊥)
    → (made && again) ≡ false
not_both {made} {again} same own own' apart = elim (Bool-cases made) [
  | inr no_turn ↦ ground (arith, no_turn)
  | inl first ↦ elim (Bool-cases again) [
    | inr no_turn ↦ ground (arith, first, no_turn)
    | inl second ↦ absurd (apart (sym (own first) ∙ same ∙ own' second))
  ]
]

started-AllFit : (db : Database) (calls : List Running) → All IsStarted calls → AllFit (db, calls)
started-AllFit db [] a = tt
started-AllFit db (call ∷ calls) (new, a) =
    (subst (Fits db.turns call) (sym new) tt, started-AllFit db calls a)

at-Fits :
    (turns : List TurnRow) (calls : List Running) (i : ℕ) (call : Running) (answer : Admitted)
    → All (λ c. Fits turns c c.stage) calls
    → get_elem? calls i ≡ some call
    → call.stage ≡ over (returns answer)
    → Fits turns call (over (returns answer))
at-Fits turns [] i call answer a e at = absurd (cc)
at-Fits turns (c ∷ calls) zero call answer (f, a) e at =
    subst (Fits turns call) at (subst (λ (x : Running). Fits turns x x.stage) (some_inj e) f)
at-Fits turns (c ∷ calls) (suc i) call answer (f, a) e at = at-Fits turns calls i call answer a e at

-- Two prompts to a session with one key, of any number of calls that run at the same time, which are
-- both answered with a turn are answered with the same turn, and at most one of them has created it,
-- whatever the order of their statements and of the creations, leases, completions and failures
-- between them. The ids that the two calls have drawn for a new turn are different.
pub answers_same :
    (db : Database) (calls : List Running) (events : List Event) (i j : ℕ) (call other : Running)
    (answer reply : Admitted)
    → All IsStarted calls
    → get_elem? (happen_all (db, calls) events).1 i ≡ some call
    → get_elem? (happen_all (db, calls) events).1 j ≡ some other
    → call.stage ≡ over (returns answer)
    → other.stage ≡ over (returns reply)
    → call.input.session_id ≡ other.input.session_id
    → call_key call ≡ call_key other
    → (call.fresh.id ≡ other.fresh.id → ⊥)
    → (answer.turn.id ≡ reply.turn.id) × ((answer.created && reply.created) ≡ false)
answers_same db calls events i j call other answer reply new here there done finished same keys
      apart =
    let after = happen_all (db, calls) events in
    let fits = happen_all-AllFit (db, calls) events (started-AllFit db calls new) in
    let ((row, found, named), own) = at-Fits after.0.turns after.1 i call answer fits here done in
    let ((row', found', named'), own') =
      at-Fits after.0.turns after.1 j other reply fits there finished in
    let rows : row ≡ row' = some_inj (
      sym found
      ∙ ap (λ s. find? (is_keyed_of s (call_key call)) after.0.turns) same
      ∙ ap (λ k. find? (is_keyed_of other.input.session_id k) after.0.turns) keys
      ∙ found') in
    let ids : answer.turn.id ≡ reply.turn.id =
      sym named ∙ ap (λ (r : TurnRow). r.id) rows ∙ named' in
    (ids, not_both ids own own' apart)

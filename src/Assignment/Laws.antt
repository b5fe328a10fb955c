-- ===== src/Assignment/Laws.antt =====
-- src/services/session-service.ts: whom `place` chooses, and when it finds nobody.
use opencode_master.Base.{
  String, Option, none, some, Bool, true, List, [], ◌∷◌, find?, select, has_key, ◌≡◌, refl, inl,
  inr, ◌⊎◌, arith, Option-cases, subst, sym,
}
use opencode_master.Types.{WorkerRow, WorkerStatus}
use opencode_master.Config.{Config}
use opencode_master.Registry
use opencode_master.Registry.{Registry, worker_id, is_ok}
use opencode_master.Assignment.{
  eligible, is_other, views_of, preferred, place_among, place, load_of,
}
use opencode_master.Placement.Load.{pick_least_loaded}
use opencode_master.Placement.Load.Least.{IsLeast, pick_least_loaded-IsLeast}

-- `w` is a row of the list.
abbrev pub IsIn : WorkerRow → List WorkerRow → Type 0
IsIn w [] = ⊥
IsIn w (x ∷ xs) = (w ≡ x) ⊎ IsIn w xs

IsLeast-IsIn : (w : WorkerRow) (xs : List WorkerRow) → IsLeast load_of w xs → IsIn w xs
IsLeast-IsIn w [] h = absurd h
IsLeast-IsIn w (x ∷ xs) (inl (e, a)) = inl e
IsLeast-IsIn w (x ∷ xs) (inr (lt, l)) = inr (IsLeast-IsIn w xs l)

find?-IsIn :
    (k : String) (xs : List WorkerRow) (w : WorkerRow)
    → find? (has_key worker_id k) xs ≡ some w
    → IsIn w xs
find?-IsIn k [] w e = cc
find?-IsIn k (x ∷ xs) w e = ground (arith, find?-IsIn k xs w)

viewed-IsIn :
    (view : WorkerRow) (views workers : List WorkerRow) (w : WorkerRow)
    → IsIn view workers
    → (IsIn w views → IsIn w workers)
    → IsIn w (view ∷ views)
    → IsIn w workers
viewed-IsIn view views workers w held later (inl e) = subst (λ x. IsIn x workers) (sym e) held
viewed-IsIn view views workers w held later (inr m) = later m

views_of-IsIn :
    (workers : List WorkerRow) (ids : List String) (w : WorkerRow)
    → IsIn w (views_of workers ids)
    → IsIn w workers
views_of-IsIn workers [] w h = absurd h
views_of-IsIn workers (id ∷ ids) w h = elim (Option-cases (find? (has_key worker_id id) workers)) [
  | inl gone ↦ views_of-IsIn workers ids w (ground arith)
  | inr (view, found) ↦
      viewed-IsIn view (views_of workers ids) workers w (find?-IsIn id workers view found)
        (views_of-IsIn workers ids w) (ground arith)
]

picked-IsIn :
    (xs : List WorkerRow) (w : WorkerRow) → pick_least_loaded load_of xs ≡ some w → IsIn w xs
picked-IsIn xs w e = elim (pick_least_loaded-IsLeast load_of xs) [
  | inl (_, gone) ↦ cc
  | inr (best, found, least) ↦
      let same : best ≡ w = cc in subst (λ x. IsIn x xs) same (IsLeast-IsIn best xs least)
]

place_among-IsIn :
    (cfg : Config) (healthy : List WorkerRow) (user_id : String) (w : WorkerRow)
    → place_among cfg healthy user_id ≡ some w
    → IsIn w healthy
unfolding place_among preferred
place_among-IsIn cfg [] user_id w e = cc
place_among-IsIn cfg (x ∷ xs) user_id w e =
    elim (Option-cases (pick_least_loaded load_of (preferred cfg (x ∷ xs) user_id))) [
      | inl gone ↦ picked-IsIn (x ∷ xs) w (rw gone at e)
      | inr (best, found) ↦
          let same : best ≡ w = ground arith in
          views_of-IsIn (x ∷ xs) _ w (
            subst (λ y. IsIn y (preferred cfg (x ∷ xs) user_id)) same
              (picked-IsIn (preferred cfg (x ∷ xs) user_id) best found))
    ]

place_among-total :
    (cfg : Config) (x : WorkerRow) (xs : List WorkerRow) (user_id : String)
    → (w : WorkerRow) × (place_among cfg (x ∷ xs) user_id ≡ some w)
unfolding place_among
place_among-total cfg x xs user_id =
    elim (Option-cases (pick_least_loaded load_of (preferred cfg (x ∷ xs) user_id))) [
      | inr (best, found) ↦ (best, ground arith)
      | inl gone ↦ elim (pick_least_loaded-IsLeast load_of (x ∷ xs)) [
        | inl (absent, _) ↦ absurd (ground arith)
        | inr (best, found, _) ↦ (best, ground arith)
      ]
    ]

select-IsIn :
    (p : WorkerRow → Bool) (xs : List WorkerRow) (w : WorkerRow)
    → IsIn w (select p xs)
    → IsIn w xs × (p w ≡ true)
select-IsIn p [] w h = absurd h
select-IsIn p (x ∷ xs) w h = ground (arith, select-IsIn p xs w)

-- A worker that `place` chooses is a registered one, with the status `ok`, and not the excluded one;
-- and `place` finds nobody only where no registered worker fits these conditions.
pub place_lem :
    (r : Registry) (cfg : Config) (user_id : String) (excluded : Option String)
    → ((place r cfg user_id excluded ≡ none)
        × (select (is_other excluded) (select (λ row. is_ok row.status) r.workers) ≡ []))
      ⊎ ((w : WorkerRow) × (place r cfg user_id excluded ≡ some w)
          × IsIn w r.workers
          × (w.status ≡ WorkerStatus.ok)
          × (is_other excluded w ≡ true))
unfolding place eligible Registry.healthy_workers
place_lem r cfg user_id excluded = go (eligible r excluded) refl
  where
    go :
        (healthy : List WorkerRow)
        → eligible r excluded ≡ healthy
        → ((place r cfg user_id excluded ≡ none) × (eligible r excluded ≡ []))
          ⊎ ((w : WorkerRow) × (place r cfg user_id excluded ≡ some w)
              × IsIn w r.workers
              × (w.status ≡ WorkerStatus.ok)
              × (is_other excluded w ≡ true))
    go [] e = inl (ground arith, e)
    go (x ∷ xs) e =
        let (w, found) = place_among-total cfg x xs user_id in
        let chosen : place r cfg user_id excluded ≡ some w = ground arith in
        let held = place_among-IsIn cfg (x ∷ xs) user_id w found in
        let among : IsIn w (eligible r excluded) = subst (IsIn w) (sym e) held in
        let (well, other) =
          select-IsIn (is_other excluded) (select (λ row. is_ok row.status) r.workers) w among in
        let (listed, ok) = select-IsIn (λ row. is_ok row.status) r.workers w well in
        inr (w, chosen, listed, ground arith, other)

-- ===== src/Scheduler/Down.antt =====
-- src/services/scheduler.ts: the workers that a sweep finds lost are down after it, and are not placed on.
use opencode_master.Base.{
  ℕ, String, Option, none, some, Bool, true, false, List, [], ◌∷◌, ◌≡◌, refl, arith, All, contains,
  map, select, HasUniqueKeys, IsFresh, map_some, text_dec, inl, sym, inr, subst, ◌-◌,
}
use opencode_master.Types.{WorkerRow}
use opencode_master.Config.{Config}
use opencode_master.Registry.{Registry, worker_id, is_ok, is_lost, sweep}
use opencode_master.Registry.Keys.{IsKeyed}
use opencode_master.Registry.Sweep.{sweep_lem, swept}
use opencode_master.Assignment.{place}
use opencode_master.Assignment.Laws.{place_lem, IsIn}
use opencode_master.Sessions.{is_text}

-- No worker of this id is to be placed on.
abbrev pub IsDown : String → List WorkerRow → Type 0
IsDown id = All (λ x. x.id ≡ id → is_ok x.status ≡ false)

fresh-IsDown :
    (k id : String) (cutoff : ℕ) (xs : List WorkerRow)
    → k ≡ id
    → IsFresh worker_id k xs
    → IsDown id (map (swept cutoff) xs)
fresh-IsDown k id cutoff [] _ _ = tt
fresh-IsDown k id cutoff (x ∷ xs) e (n, r) = (λ h. ground arith, fresh-IsDown k id cutoff xs e r)

fresh-lost :
    (k id : String) (cutoff : ℕ) (xs : List WorkerRow)
    → k ≡ id
    → IsFresh worker_id k xs
    → contains (map worker_id (select (is_lost cutoff) xs)) id ≡ false
fresh-lost k id cutoff [] _ _ = refl
fresh-lost k id cutoff (x ∷ xs) e (n, r) = ground (arith, fresh-lost k id cutoff xs e r)

-- A worker that a sweep reports is down after it.
lost-IsDown :
    (id : String) (cutoff : ℕ) (xs : List WorkerRow)
    → HasUniqueKeys worker_id xs
    → contains (map worker_id (select (is_lost cutoff) xs)) id ≡ true
    → IsDown id (map (swept cutoff) xs)
lost-IsDown id cutoff [] u h = tt
lost-IsDown id cutoff (x ∷ xs) (n, u) h = elim (text_dec x.id id) [
  | yes same ↦ (
    λ e. ground (arith, fresh-lost x.id id cutoff xs same n),
    fresh-IsDown x.id id cutoff xs same n,
  )
  | no other ↦ (λ e. ground arith, lost-IsDown id cutoff xs u (ground arith))
]

IsIn-IsDown :
    (id : String) (w : WorkerRow) (xs : List WorkerRow)
    → IsDown id xs
    → IsIn w xs
    → w.id ≡ id
    → is_ok w.status ≡ false
IsIn-IsDown id w [] a h e = absurd h
IsIn-IsDown id w (x ∷ xs) (n, a) h e = ground (arith, n, IsIn-IsDown id w xs a)

-- `place` finds no worker that is down.
place-IsDown :
    (r : Registry) (cfg : Config) (user_id id : String) (excluded : Option String)
    → IsDown id r.workers
    → is_text (map_some worker_id (place r cfg user_id excluded)) id ≡ false
place-IsDown r cfg user_id id excluded down = elim (place_lem r cfg user_id excluded) [
  | inl (nobody, _) ↦ ground arith
  | inr (w, found, inside, ok, _) ↦ ground (arith, IsIn-IsDown id w r.workers down inside)
]

-- All the workers of a list are down.
abbrev pub AreDown : List String → Registry → Type 0
AreDown [] r = Unit
AreDown (id ∷ ids) r = IsDown id r.workers × AreDown ids r

-- The owner that `place` finds is not among workers that are down.
abbrev among : List String → Option String → Bool
among ids none = false
among ids (some id) = contains ids id

pub place-AreDown :
    (r : Registry) (cfg : Config) (user_id : String) (excluded : Option String) (ids : List String)
    → AreDown ids r
    → among ids (map_some worker_id (place r cfg user_id excluded)) ≡ false
place-AreDown r cfg user_id excluded [] _ = ground arith
place-AreDown r cfg user_id excluded (id ∷ ids) (down, rest) = ground (
  arith,
  place-IsDown r cfg user_id id excluded down,
  place-AreDown r cfg user_id excluded ids rest,
)

lost-AreDown :
    (cutoff : ℕ) (r after : Registry) (ids : List String)
    → IsKeyed r
    → after.workers ≡ map (swept cutoff) r.workers
    → All (λ id. contains (map worker_id (select (is_lost cutoff) r.workers)) id ≡ true) ids
    → AreDown ids after
lost-AreDown cutoff r after [] u same _ = tt
lost-AreDown cutoff r after (id ∷ ids) u same (h, a) = (
  subst (IsDown id) (sym same) (lost-IsDown id cutoff r.workers u h),
  lost-AreDown cutoff r after ids u same a,
)

each-contains :
    (ids all : List String)
    → ((k : String) → contains ids k ≡ true → contains all k ≡ true)
    → All (λ id. contains all id ≡ true) ids
each-contains [] all h = tt
each-contains (id ∷ ids) all h =
    (h id (ground arith), each-contains ids all (λ k e. h k (ground arith)))

-- After a sweep, the workers that it reports are down.
pub sweep-AreDown :
    (r : Registry) (timeout now : ℕ)
    → IsKeyed r
    → AreDown (sweep r timeout now).1 (sweep r timeout now).0
sweep-AreDown r timeout now u =
    let (workers, ids) = sweep_lem r timeout now u in
    lost-AreDown (now - timeout) r (sweep r timeout now).0 (sweep r timeout now).1 u workers (
      subst (λ lost. All (λ id. contains lost id ≡ true) (sweep r timeout now).1) ids
        (each-contains (sweep r timeout now).1 (sweep r timeout now).1 (λ k e. e)))

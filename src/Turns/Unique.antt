-- ===== src/Turns/Unique.antt =====
-- src/services/turn-service.ts: turns with one client key each, and one active turn of a session, as
-- rows are added and written.
use opencode_master.Base.{
  String, none, Bool, true, false, List, [], ◌∷◌, ◌++◌, find?, update, ◌≡◌, arith, All, All-append,
  if◌then◌else◌,
}
use opencode_master.Types.{TurnRow}
use opencode_master.Turns.{is_active, is_active_of, is_keyed_of}

-- No two turns of a session have the same client key.
abbrev pub HasUniqueClientKeys : List TurnRow → Type 0
HasUniqueClientKeys [] = Unit
HasUniqueClientKeys (x ∷ xs) =
    All (λ y. is_keyed_of x.session_id x.client_key y ≡ false) xs × HasUniqueClientKeys xs

-- No two turns of a session are pending or leased.
abbrev pub HasOneActive : List TurnRow → Type 0
HasOneActive [] = Unit
HasOneActive (x ∷ xs) =
    (is_active x.status ≡ true → All (λ y. is_active_of x.session_id y ≡ false) xs)
    × HasOneActive xs

-- A write to a turn that leaves its columns but the status, the times and the message.
abbrev pub Keeps : (TurnRow → TurnRow) → Type 0
Keeps f =
    (x : TurnRow)
    → ((f x).id ≡ x.id) × ((f x).session_id ≡ x.session_id) × ((f x).client_key ≡ x.client_key)

All-none : (q : TurnRow → Bool) (xs : List TurnRow) → find? q xs ≡ none → All (λ y. q y ≡ false) xs
All-none q [] e = tt
All-none q (x ∷ xs) e = (ground arith, All-none q xs (ground arith))

pub keyed-append :
    (xs : List TurnRow) (y : TurnRow)
    → HasUniqueClientKeys xs
    → find? (is_keyed_of y.session_id y.client_key) xs ≡ none
    → HasUniqueClientKeys (xs ++ y ∷ [])
keyed-append [] y _ _ = (tt, tt)
keyed-append (x ∷ xs) y (n, u) e = (
  All-append (λ z. is_keyed_of x.session_id x.client_key z ≡ false) xs (y ∷ []) n (ground arith),
  keyed-append xs y u (ground arith),
)

pub active-append :
    (xs : List TurnRow) (y : TurnRow)
    → HasOneActive xs
    → find? (is_active_of y.session_id) xs ≡ none
    → HasOneActive (xs ++ y ∷ [])
active-append [] y _ _ = (λ h. tt, tt)
active-append (x ∷ xs) y (n, u) e = (
  λ h. All-append (λ z. is_active_of x.session_id z ≡ false) xs (y ∷ []) (n h) (ground arith),
  active-append xs y u (ground arith),
)

module _ (p : TurnRow → Bool) (f : TurnRow → TurnRow) (keeps : Keeps f) where
  All-keyed-update :
      (s t c d : String) (xs : List TurnRow)
      → t ≡ s
      → d ≡ c
      → All (λ y. is_keyed_of s c y ≡ false) xs
      → All (λ y. is_keyed_of t d y ≡ false) (update p f xs)
  All-keyed-update s t c d [] _ _ _ = tt
  All-keyed-update s t c d (x ∷ xs) es ec (n, a) =
      (ground (arith, keeps x), All-keyed-update s t c d xs es ec a)

  pub keyed-update :
      (xs : List TurnRow) → HasUniqueClientKeys xs → HasUniqueClientKeys (update p f xs)
  keyed-update [] _ = tt
  keyed-update (x ∷ xs) (n, u) =
      let y = if p x then f x else x in
      (
        All-keyed-update x.session_id y.session_id x.client_key y.client_key xs
            (ground (arith, keeps x)) (ground (arith, keeps x)) n,
        keyed-update xs u,
      )

  -- The write makes no turn active that was over.
  abbrev pub Revives : TurnRow → Type 0
  Revives x = p x ≡ true → is_active (f x).status ≡ true → is_active x.status ≡ true

  All-active-update :
      (s t : String) (xs : List TurnRow)
      → t ≡ s
      → All Revives xs
      → All (λ y. is_active_of s y ≡ false) xs
      → All (λ y. is_active_of t y ≡ false) (update p f xs)
  All-active-update s t [] _ _ _ = tt
  All-active-update s t (x ∷ xs) es (r, rs) (n, a) =
      (ground (arith, keeps x), All-active-update s t xs es rs a)

  pub active-update :
      (xs : List TurnRow) → All Revives xs → HasOneActive xs → HasOneActive (update p f xs)
  active-update [] _ _ = tt
  active-update (x ∷ xs) (r, rs) (n, u) =
      let y = if p x then f x else x in
      (
        λ h.
            All-active-update x.session_id y.session_id xs (ground (arith, keeps x)) rs
              (n (ground arith)),
        active-update xs rs u,
      )

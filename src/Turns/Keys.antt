-- ===== src/Turns/Keys.antt =====
-- src/services/turn-service.ts: a client key names one turn of its session, and a session has at most
-- one turn that is not over.
use opencode_master.Base.{
  ℕ, String, none, some, true, List, [], ◌∷◌, ◌++◌, find?, update, has_key, ◌≡◌, refl, inl, inr,
  ◌⊎◌, arith, HasUniqueKeys, HasUniqueKeys-update, HasUniqueKeys-append, All, text_dec,
  Option-cases, IsFresh, subst, sym,
}
use opencode_master.Types.{TurnRow}
use opencode_master.Database.{Database}
use opencode_master.Turns.{
  turn_id, is_active, is_active_of, is_keyed_of, is_held, write_if_held, lease, complete, fail,
  create_or_get, insert_turn, new_turn, key_of, leased_at, completed_as_of, failed_with, TurnInput,
  TurnFresh,
}
use opencode_master.Turns.Leases.{
  Op, creates, leases, completes, fails, perform, perform_all, is_held-none,
}
use opencode_master.Turns.Unique.{
  HasUniqueClientKeys, HasOneActive, Keeps, keyed-append, active-append, keyed-update,
  active-update, Revives,
}

pub record IsSound (turns : List TurnRow) : Type 0 where
  pub ids : HasUniqueKeys turn_id turns
  pub keys : HasUniqueClientKeys turns
  pub one_active : HasOneActive turns

fresh-active :
    (k id : String) (xs : List TurnRow)
    → k ≡ id
    → IsFresh turn_id k xs
    → All (λ x. has_key turn_id id x ≡ true → is_active x.status ≡ true) xs
fresh-active k id [] _ _ = tt
fresh-active k id (x ∷ xs) e (n, r) = (λ h. ground arith, fresh-active k id xs e r)

-- A turn that is held is active, and it is the only turn of its id.
held-active :
    (id worker_id : String) (epoch : ℕ) (xs : List TurnRow) (row : TurnRow)
    → HasUniqueKeys turn_id xs
    → find? (is_held id worker_id epoch) xs ≡ some row
    → All (λ x. has_key turn_id id x ≡ true → is_active x.status ≡ true) xs
held-active id worker_id epoch [] row u e = tt
held-active id worker_id epoch (x ∷ xs) row (n, u) e = elim (text_dec x.id id) [
  | yes same ↦ (
    λ h.
        ground
          (arith, is_held-none id worker_id epoch xs (subst (λ k. IsFresh turn_id k xs) same n)),
    fresh-active x.id id xs same n,
  )
  | no other ↦ (λ h. ground arith, held-active id worker_id epoch xs row u (ground arith))
]

held-Revives :
    (id : String) (write : TurnRow → TurnRow) (keeps : Keeps write) (xs : List TurnRow)
    → All (λ x. has_key turn_id id x ≡ true → is_active x.status ≡ true) xs
    → All (Revives (has_key turn_id id) write keeps) xs
held-Revives id write keeps [] _ = tt
held-Revives id write keeps (x ∷ xs) (h, a) =
    let rest = held-Revives id write keeps xs a in (λ held _. h held, rest)

pub write_if_held-shape :
    (db : Database) (id worker_id : String) (epoch : ℕ) (write : TurnRow → TurnRow)
    → ((write_if_held db id worker_id epoch write).0.turns ≡ db.turns)
      ⊎ ((row : TurnRow) × (find? (is_held id worker_id epoch) db.turns ≡ some row)
          × ((write_if_held db id worker_id epoch write).0.turns
              ≡ update (has_key turn_id id) write db.turns))
unfolding write_if_held
write_if_held-shape db id worker_id epoch write =
    elim (Option-cases (find? (is_held id worker_id epoch) db.turns)) [
      | inl e ↦ inl (ground arith)
      | inr (row, e) ↦ inr (row, e, ground arith)
    ]

write_if_held-IsSound :
    (db : Database) (id worker_id : String) (epoch : ℕ) (write : TurnRow → TurnRow)
    → Keeps write
    → IsSound db.turns
    → IsSound (write_if_held db id worker_id epoch write).0.turns
write_if_held-IsSound db id worker_id epoch write keeps v =
    elim (write_if_held-shape db id worker_id epoch write) [
      | inl same ↦ subst IsSound (sym same) v
      | inr (row, e, written) ↦ subst IsSound (sym written) (record {
        ids =
            HasUniqueKeys-update turn_id (has_key turn_id id) write (λ x. (keeps x).0) db.turns
              v.ids;
        keys = keyed-update (has_key turn_id id) write keeps db.turns v.keys;
        one_active =
            active-update (has_key turn_id id) write keeps db.turns
              (held-Revives id write keeps db.turns
                (held-active id worker_id epoch db.turns row v.ids e))
              v.one_active;
      })
    ]

pub create_or_get-shape :
    (db : Database) (input : TurnInput) (fresh : TurnFresh)
    → ((create_or_get db input fresh).0.turns ≡ db.turns)
      ⊎ ((find? (is_keyed_of input.session_id (key_of input fresh)) db.turns ≡ none)
          × (find? (is_active_of input.session_id) db.turns ≡ none)
          × (find? (has_key turn_id fresh.id) db.turns ≡ none)
          × ((create_or_get db input fresh).0.turns
              ≡ db.turns ++ new_turn input fresh (key_of input fresh) ∷ []))
unfolding create_or_get insert_turn
create_or_get-shape db input fresh =
    elim (Option-cases (find? (is_keyed_of input.session_id (key_of input fresh)) db.turns)) [
      | inl e ↦ elim (Option-cases (find? (is_active_of input.session_id) db.turns)) [
        | inl free ↦ elim (Option-cases (find? (has_key turn_id fresh.id) db.turns)) [
          | inl new ↦ inr (e, free, new, ground arith)
          | inr (_, taken) ↦ inl (ground arith)
        ]
        | inr (_, busy) ↦ inl (ground arith)
      ]
      | inr (_, found) ↦ inl (ground arith)
    ]

create_or_get-IsSound :
    (db : Database) (input : TurnInput) (fresh : TurnFresh)
    → IsSound db.turns
    → IsSound (create_or_get db input fresh).0.turns
create_or_get-IsSound db input fresh v = elim (create_or_get-shape db input fresh) [
  | inl same ↦ subst IsSound (sym same) v
  | inr (keyed, free, new, grown) ↦
      let row = new_turn input fresh (key_of input fresh) in
      subst IsSound (sym grown) (record {
        ids = HasUniqueKeys-append turn_id db.turns row v.ids new;
        keys = keyed-append db.turns row v.keys keyed;
        one_active = active-append db.turns row v.one_active free;
      })
]

pub perform-IsSound : (db : Database) (op : Op) → IsSound db.turns → IsSound (perform db op).turns
unfolding perform lease complete fail
perform-IsSound db (creates input fresh) v = create_or_get-IsSound db input fresh v
perform-IsSound db (leases id worker_id epoch now) v =
    write_if_held-IsSound db id worker_id epoch (leased_at now) (λ x. (refl, refl, refl)) v
perform-IsSound db (completes id worker_id epoch now) v =
    write_if_held-IsSound db id worker_id epoch (completed_as_of now) (λ x. (refl, refl, refl)) v
perform-IsSound db (fails id worker_id epoch message now) v =
    write_if_held-IsSound db id worker_id epoch (failed_with message now) (λ x. (refl, refl, refl))
      v

-- Where turn ids and the client keys of each session are unique, and each session has at most one
-- active turn, this stays so over any sequence of creations, leases, completions and failures.
pub perform_all-IsSound :
    (db : Database) (ops : List Op) → IsSound db.turns → IsSound (perform_all db ops).turns
unfolding perform_all
perform_all-IsSound db [] v = v
perform_all-IsSound db (op ∷ ops) v =
    perform_all-IsSound (perform db op) ops (perform-IsSound db op v)

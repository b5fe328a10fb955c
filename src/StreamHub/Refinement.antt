-- ===== src/StreamHub/Refinement.antt =====
-- src/worker/stream-hub.ts: a buffer is the end of the log of all the events of its session.
use opencode_master.Base.{
  ℕ, zero, suc, String, Option, none, some, List, [], ◌∷◌, ◌++◌, ◌≡◌, refl, arith, ◌+◌, ◌-◌, max,
  drop, length, select, Numbered, Numbered-append, Numbered-drop, select-later, later_than,
  drop-drop, drop-grown, ◌≤◌, ◌==◌, if◌then◌else◌, ap, sym, ◌∙◌, text_dec, ltb, Bool-cases, subst,
  inl, inr, Option-cases,
}
use opencode_master.Types.{Json}
use opencode_master.StreamHub.{
  StreamEvent, Buffer, Hub, wrap_event, find_buffer, buffer_of, set_buffer, pushed, publish,
  Published, replay, is_missed,
}

abbrev pub id_of : StreamEvent → ℕ
id_of event = event.id

-- A buffer of a capacity that stands for a log: the events of the log are numbered from 1, the next
-- number is free, and the buffer has the last events, as many as its capacity allows.
pub record Represents (capacity : ℕ) (log : List StreamEvent) (buffer : Buffer) : Type 0 where
  pub numbered : Numbered id_of 1 log
  pub next : buffer.next_id ≡ 1 + length log
  pub kept : buffer.events ≡ drop (length log - capacity) log

length-drop_append :
    (a : ℕ) (xs : List StreamEvent) (y : StreamEvent)
    → a ≤ length xs
    → length (drop a xs ++ y ∷ []) ≡ suc (length xs - a)
length-drop_append zero [] y h = ground arith
length-drop_append (suc a) [] y h = absurd (omega arith)
length-drop_append zero (x ∷ xs) y h = ground (arith, length-drop_append zero xs y)
length-drop_append (suc a) (x ∷ xs) y h = ground (arith, length-drop_append a xs y)

length-snoc : (xs : List StreamEvent) (y : StreamEvent) → length (xs ++ y ∷ []) ≡ suc (length xs)
length-snoc [] y = refl
length-snoc (x ∷ xs) y = ground (arith, length-snoc xs y)

-- The cut of an overfull buffer leaves one that is not overfull as it is.
cut-drop :
    (capacity : ℕ) (xs : List StreamEvent)
    → (if ltb capacity (length xs) then drop (length xs - capacity) xs else xs)
      ≡ drop (length xs - capacity) xs
cut-drop capacity xs = elim (Bool-cases (ltb capacity (length xs))) [
  | inl over ↦ ground arith
  | inr within ↦
      let none_lost : length xs - capacity ≡ 0 = ground arith in rw none_lost (ground arith)
]

-- A push on a buffer that stands for a log, with the next number, stands for the log with the event.
pushed-Represents :
    (capacity : ℕ) (log : List StreamEvent) (event : StreamEvent) (buffer : Buffer)
    → id_of event ≡ buffer.next_id
    → Represents capacity log buffer
    → Represents capacity (log ++ event ∷ []) (pushed capacity event buffer)
pushed-Represents capacity log event buffer e r =
    let a = length log - capacity in
    let all = drop a log ++ event ∷ [] in
    let size : length all ≡ suc (length log - a) = length-drop_append a log event (omega arith) in
    let whole : drop a (log ++ event ∷ []) ≡ all = drop-grown a log event (omega arith) in
    let at : a + (length all - capacity) ≡ length (log ++ event ∷ []) - capacity =
      omega (arith, size, length-snoc log event) in
    let cut : drop (length all - capacity) all
        ≡ drop (length (log ++ event ∷ []) - capacity) (log ++ event ∷ []) =
      ap (drop (length all - capacity)) (sym whole)
      ∙ drop-drop a (length all - capacity) (log ++ event ∷ [])
      ∙ ap (λ m. drop m (log ++ event ∷ [])) at in
    record {
      numbered = Numbered-append id_of 1 log event r.numbered (e ∙ r.next);
      next = ground (arith, r.next, length-snoc log event);
      kept =
          ap
            (λ events.
              let xs = events ++ event ∷ [] in
              if ltb capacity (length xs) then drop (length xs - capacity) xs else xs)
            r.kept
          ∙ cut-drop capacity all
          ∙ cut;
    }

find_buffer-set_buffer :
    (k j : String) (b : Buffer) (m : List (String × Buffer))
    → find_buffer k (set_buffer j b m) ≡ (if j == k then some b else find_buffer k m)
find_buffer-set_buffer k j b [] = ground arith
find_buffer-set_buffer k j b ((i, c) ∷ m) = ground (arith, find_buffer-set_buffer k j b m)

-- The log of a session after an event is published to some session.
abbrev pub logged : Published → String → String → List StreamEvent → List StreamEvent
logged published session_id k log = if session_id == k then log ++ published.event ∷ [] else log

-- Where the buffer of a session stands for its log, with the last events, as many as the capacity
-- allows, and the number of the next, publishing an event to this session leaves a buffer that stands
-- for the log with the event, and publishing to another session one that stands for the same log.
pub publish-Represents :
    (hub : Hub) (session_id type : String) (payload : Json) (now : ℕ) (k : String)
    (log : List StreamEvent)
    → Represents hub.capacity log (buffer_of k hub.sessions)
    → let published = publish hub session_id type payload now in
      Represents hub.capacity
        (logged published session_id k log)
        (buffer_of k published.hub.sessions)
unfolding publish
publish-Represents hub session_id type payload now k log r =
    let buffer = buffer_of session_id hub.sessions in
    let event = wrap_event session_id hub.worker_id type payload buffer.next_id now in
    let found =
      find_buffer-set_buffer k session_id (pushed hub.capacity event buffer) hub.sessions in
    elim (text_dec session_id k) [
      | yes same ↦
          let log_is : (if session_id == k then log ++ event ∷ [] else log) ≡ log ++ event ∷ [] =
            ground arith in
          let buffer_is : buffer_of k
                (set_buffer session_id (pushed hub.capacity event buffer) hub.sessions)
              ≡ pushed hub.capacity event buffer =
            ground (arith, found) in
          let grown =
            pushed-Represents hub.capacity log event buffer refl
              (subst (λ s. Represents hub.capacity log (buffer_of s hub.sessions)) (sym same) r) in
          subst
            (λ l.
              Represents hub.capacity l (
                buffer_of k
                  (set_buffer session_id (pushed hub.capacity event buffer) hub.sessions)))
            (sym log_is) (subst (Represents hub.capacity (log ++ event ∷ [])) (sym buffer_is) grown)
      | no other ↦
          let log_is : (if session_id == k then log ++ event ∷ [] else log) ≡ log = ground arith in
          let buffer_is : buffer_of k
                (set_buffer session_id (pushed hub.capacity event buffer) hub.sessions)
              ≡ buffer_of k hub.sessions =
            ground (arith, found) in
          subst
            (λ l.
              Represents hub.capacity l (
                buffer_of k
                  (set_buffer session_id (pushed hub.capacity event buffer) hub.sessions)))
            (sym log_is) (subst (Represents hub.capacity log) (sym buffer_is) r)
    ]

replay-select :
    (hub : Hub) (k : String) (after : Option ℕ)
    → replay hub k after ≡ select (is_missed after) (buffer_of k hub.sessions).events
unfolding replay
replay-select hub k after = elim (Option-cases (find_buffer k hub.sessions)) [
  | inl missing ↦ ground arith
  | inr (buffer, found) ↦ ground arith
]

select-none : (xs : List StreamEvent) → select (is_missed none) xs ≡ xs
select-none [] = refl
select-none (x ∷ xs) = ground (arith, select-none xs)

-- Where the buffer of a session stands for its log, a replay after a number gives the events of the log
-- that come after it, but for those that the buffer has dropped; a replay without a number gives the
-- last events of the log, as many as the capacity allows.
replay-Represents :
    (hub : Hub) (k : String) (log : List StreamEvent) (id : ℕ)
    → Represents hub.capacity log (buffer_of k hub.sessions)
    → (replay hub k (some id) ≡ drop (max id (length log - hub.capacity)) log)
      × (replay hub k none ≡ drop (length log - hub.capacity) log)
replay-Represents hub k log id r =
    let lost = length log - hub.capacity in
    let first : 1 + lost ≡ suc lost = omega arith in
    let left : Numbered id_of (suc lost) (drop lost log) =
      subst (λ m. Numbered id_of m (drop lost log)) first
        (Numbered-drop id_of 1 lost log r.numbered) in
    let sum : lost + (id - lost) ≡ max id lost = omega arith in
    (
      replay-select hub k (some id)
          ∙ ap (select (later_than id_of id)) r.kept
          ∙ select-later id_of lost id (drop lost log) left
          ∙ drop-drop lost (id - lost) log
          ∙ ap (λ m. drop m log) sum,
      replay-select hub k none ∙ ap (select (is_missed none)) r.kept ∙ select-none (drop lost log),
    )

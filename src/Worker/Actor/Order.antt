-- ===== src/Worker/Actor/Order.antt =====
-- src/worker/session-actor.ts: the tasks of a session end in the order in which they were enqueued.
use opencode_master.Base.{
  ℕ, String, Option, none, some, Bool, true, false, List, [], ◌∷◌, ◌++◌, ◌≡◌, refl, arith, ap, sym,
  subst, ◌∙◌, eqb, select, map, or_else, get_entry, set_entry, get-set_entry, if◌then◌else◌,
  text_dec, append_assoc, append-nil,
}
use opencode_master.Worker.Actor.{
  Task, Actor, Chain, resolved, chained, Settled, tail, enqueue, begin_resume, settle_task,
  settle_in, settle_at, settle_here, settle_found, is_settled, is_of,
}

-- What happens to an actor; any task may try to end at any time.
pub data Op : Type 0 where
  enqueues : Task → Op
  settles : String → ℕ → Op
  resumes : String → Op

unfoldable pub perform : Actor → Op → Actor × List Settled
perform actor (enqueues task) = (enqueue actor task, [])
perform actor (settles id n) = settle_task actor id n
perform actor (resumes id) = (begin_resume actor id, [])

-- The actor after a history, and the tasks that ended.
unfoldable pub perform_all : Actor → List Op → Actor × List Settled
perform_all actor [] = (actor, [])
perform_all actor (op ∷ ops) =
    let (after, settled) = perform actor op in
    let (last, others) = perform_all after ops in (last, settled ++ others)

abbrev pub enqueued_in : List Op → List Task
enqueued_in [] = []
enqueued_in (enqueues task ∷ ops) = task ∷ enqueued_in ops
enqueued_in (settles _ _ ∷ ops) = enqueued_in ops
enqueued_in (resumes _ ∷ ops) = enqueued_in ops

abbrev pub tasks_of : String → List Settled → List Task
tasks_of id settled = select (is_of id) (map (λ s. s.task) settled)

-- The tasks of a chain that have not ended, in their order.
abbrev pub waiting : Chain → List Task
waiting resolved = []
waiting (chained previous task settled) =
    if settled then waiting previous else waiting previous ++ task ∷ []

-- The tasks of a chain are of the session, and where one has ended, so have those before it.
abbrev pub IsOrdered : String → Chain → Type 0
IsOrdered id resolved = Unit
IsOrdered id (chained previous task settled) =
    (task.session_id ≡ id) × (settled ≡ true → waiting previous ≡ []) × IsOrdered id previous

abbrev pub IsSound : Actor → Type 0
IsSound actor = (id : String) → IsOrdered id (tail actor id)

settled-waiting :
    (id : String) (chain : Chain)
    → IsOrdered id chain
    → is_settled chain ≡ true
    → waiting chain ≡ []
settled-waiting id resolved v h = refl
settled-waiting id (chained previous task settled) (of, all, v) h = ground (arith, h, all h)

abbrev ended_in : Option Task → List Task
ended_in none = []
ended_in (some task) = task ∷ []

abbrev IsFrom : String → Option Task → Type 0
IsFrom id none = Unit
IsFrom id (some task) = task.session_id ≡ id

-- What a try to end a task does to a chain.
abbrev Ends : String → Chain → Chain × Option Task → Type 0
Ends id chain (after, ended) =
    IsOrdered id after × (waiting chain ≡ ended_in ended ++ waiting after) × IsFrom id ended

settle_here-Ends :
    (id : String) (previous : Chain) (task : Task) (settled runs : Bool)
    → is_settled previous ≡ runs
    → IsOrdered id (chained previous task settled)
    → Ends id (chained previous task settled) (settle_here previous task settled runs)
settle_here-Ends id previous task true runs h v = (v, refl, tt)
settle_here-Ends id previous task false false h v = (v, refl, tt)
settle_here-Ends id previous task false true h (of, all, v) =
    let none_left = settled-waiting id previous v h in
    ((of, (λ _. none_left), v), ground (arith, none_left), of)

append-none : (xs ys : List Task) → xs ++ ys ≡ [] → ys ≡ []
append-none [] ys h = h
append-none (x ∷ xs) ys h = ground (arith, h)

settle_at-Ends :
    (id : String) (here : Bool) (previous : Chain) (task : Task) (settled : Bool)
    (within : Chain × Option Task)
    → IsOrdered id (chained previous task settled)
    → Ends id previous within
    → Ends id (chained previous task settled) (settle_at here previous task settled within)
settle_at-Ends id true previous task settled within v w =
    settle_here-Ends id previous task settled (is_settled previous) refl v
settle_at-Ends id false previous task true (before, ended) (of, all, v) (ordered, same, from) = (
  (of, (λ h. append-none (ended_in ended) (waiting before) (sym same ∙ all refl)), ordered),
  same,
  from,
)
settle_at-Ends id false previous task false (before, ended) (of, all, v) (ordered, same, from) = (
  (of, (λ h. ground (arith, h)), ordered),
  ap (λ l. l ++ task ∷ []) same ∙ append_assoc (ended_in ended) (waiting before) (task ∷ []),
  from,
)

settle_in-Ends :
    (id : String) (n : ℕ) (chain : Chain) → IsOrdered id chain → Ends id chain (settle_in n chain)
unfolding settle_in
settle_in-Ends id n resolved v = (tt, refl, tt)
settle_in-Ends id n (chained previous task settled) (of, all, v) =
    settle_at-Ends id (eqb task.number n) previous task settled (settle_in n previous) (of, all, v)
      (settle_in-Ends id n previous v)

-- The chain of a session after another chain is stored.
tail-same :
    (actor : Actor) (k id : String) (chain : Chain)
    → k ≡ id
    → chain ≡ or_else (get_entry (set_entry actor.tails k chain) id) resolved
tail-same actor k id chain it = ground (arith, it, get-set_entry actor.tails k id chain)

tail-other :
    (actor : Actor) (k id : String) (chain : Chain)
    → (k ≡ id → ⊥)
    → tail actor id ≡ or_else (get_entry (set_entry actor.tails k chain) id) resolved
tail-other actor k id chain other = ground (arith, other, get-set_entry actor.tails k id chain)

-- What a step does to the tasks of a session.
abbrev Follows : Actor → List Task → String → Actor × List Settled → Type 0
Follows actor enqueued id (after, settled) =
    IsOrdered id (tail after id)
    × (tasks_of id settled ++ waiting (tail after id)
        ≡ waiting (tail actor id) ++ select (is_of id) enqueued)

settle_found-Follows :
    (actor : Actor) (k id : String) (r : Chain × Option Task)
    → IsSound actor
    → Ends k (tail actor k) r
    → Follows actor [] id (settle_found actor k r)
settle_found-Follows actor k id (chain, none) v w =
    (v id, sym (append-nil (waiting (tail actor id))))
settle_found-Follows actor k id (chain, some task) v (ordered, same, from) = elim (text_dec k id) [
  | yes it ↦
      let e = tail-same actor k id chain it in
      (
        subst (IsOrdered id) e (subst (λ j. IsOrdered j chain) it ordered),
        ground (
          arith,
          ap waiting e,
          it,
          from,
          same,
          ap (λ j. waiting (tail actor j)) it,
          append-nil (waiting (tail actor id)),
        ),
      )
  | no other ↦
      let e = tail-other actor k id chain other in
      (
        subst (IsOrdered id) e (v id),
        ground (arith, ap waiting e, from, other, append-nil (waiting (tail actor id))),
      )
]

perform-Follows :
    (actor : Actor) (op : Op) (id : String)
    → IsSound actor
    → Follows actor (enqueued_in (op ∷ [])) id (perform actor op)
unfolding perform enqueue begin_resume settle_task
perform-Follows actor (enqueues task) id v = elim (text_dec task.session_id id) [
  | yes it ↦
      let k = task.session_id in
      let chain = chained (tail actor k) task false in
      let e = tail-same actor k id chain it in
      (
        subst (IsOrdered id) e (
          it,
          (λ h. ground (arith, h)),
          subst (λ j. IsOrdered id (tail actor j)) (sym it) (v id),
        ),
        ground (arith, ap waiting e, it, ap (λ j. waiting (tail actor j)) it),
      )
  | no other ↦
      let k = task.session_id in
      let e = tail-other actor k id (chained (tail actor k) task false) other in
      (
        subst (IsOrdered id) e (v id),
        ground (arith, ap waiting e, other, append-nil (waiting (tail actor id))),
      )
]
perform-Follows actor (resumes k) id v = (v id, sym (append-nil (waiting (tail actor id))))
perform-Follows actor (settles k n) id v =
    settle_found-Follows actor k id (settle_in n (tail actor k)) v
      (settle_in-Ends k n (tail actor k) (v k))

select-append :
    (id : String) (xs ys : List Task)
    → select (is_of id) (xs ++ ys) ≡ select (is_of id) xs ++ select (is_of id) ys
select-append id [] ys = refl
select-append id (x ∷ xs) ys = ground (arith, select-append id xs ys)

tasks_of-append :
    (id : String) (xs ys : List Settled) → tasks_of id (xs ++ ys) ≡ tasks_of id xs ++ tasks_of id ys
tasks_of-append id [] ys = refl
tasks_of-append id (x ∷ xs) ys = ground (arith, tasks_of-append id xs ys)

enqueued-cons :
    (op : Op) (ops : List Op) → enqueued_in (op ∷ ops) ≡ enqueued_in (op ∷ []) ++ enqueued_in ops
enqueued-cons (enqueues task) ops = refl
enqueued-cons (settles k n) ops = refl
enqueued-cons (resumes k) ops = refl

-- Whatever is enqueued and resumed, and whichever tasks try to end, in any order, the tasks of a session
-- that ended, followed by those that have not, are those that had not ended before, followed by those
-- that were enqueued, in this order: no task is lost, ends twice, or overtakes another of its session.
-- Before it, the tasks of each chain are of its session, and those before one that has ended have ended.
pub perform_all-order :
    (actor : Actor) (ops : List Op) (id : String)
    → IsSound actor
    → tasks_of id (perform_all actor ops).1 ++ waiting (tail (perform_all actor ops).0 id)
      ≡ waiting (tail actor id) ++ select (is_of id) (enqueued_in ops)
unfolding perform_all
perform_all-order actor [] id v = sym (append-nil (waiting (tail actor id)))
perform_all-order actor (op ∷ ops) id v =
    let (after, settled) = perform actor op in
    let (last, others) = perform_all after ops in
    let stands = waiting (tail last id) in
    let chosen = select (is_of id) in
    ap (λ l. l ++ stands) (tasks_of-append id settled others)
    ∙ append_assoc (tasks_of id settled) (tasks_of id others) stands
    ∙ ap (λ l. tasks_of id settled ++ l)
        (perform_all-order after ops id (λ j. (perform-Follows actor op j v).0))
    ∙ sym (append_assoc (tasks_of id settled) (waiting (tail after id)) (chosen (enqueued_in ops)))
    ∙ ap (λ l. l ++ chosen (enqueued_in ops)) (perform-Follows actor op id v).1
    ∙ append_assoc (waiting (tail actor id)) (chosen (enqueued_in (op ∷ [])))
        (chosen (enqueued_in ops))
    ∙ ap (λ l. waiting (tail actor id) ++ l)
        (sym (select-append id (enqueued_in (op ∷ [])) (enqueued_in ops))
          ∙ ap chosen (sym (enqueued-cons op ops)))

pub perform_all-IsSound :
    (actor : Actor) (ops : List Op) → IsSound actor → IsSound (perform_all actor ops).0
unfolding perform_all
perform_all-IsSound actor [] v = v
perform_all-IsSound actor (op ∷ ops) v =
    perform_all-IsSound (perform actor op).0 ops (λ id. (perform-Follows actor op id v).0)

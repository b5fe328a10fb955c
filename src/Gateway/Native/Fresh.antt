-- ===== src/Gateway/Native/Fresh.antt =====
-- src/services/opencode-gateway.ts: a reply that ends the loop is a new message.
use Prim.Native.Nat.{ℕ, zero, suc}
use opencode_master.Base.{
  ltb, subst, sym, ◌++◌, String, Option, none, some, Bool, true, false, List, [], ◌∷◌, ◌≡◌, ◌==◌,
  arith, refl, contains, is_some, if◌then◌else◌, inl, inr, Option-cases,
}
use opencode_master.Gateway.Messages.{
  Question, Message, CompletedReply, new_id, ends_reply, reply_text, reasoning_of, reasoning_texts,
  completed_from, extract_completed_assistant_reply,
}
use opencode_master.Gateway.Native.{
  Poll, Waited, waiting, aborted, suspended, timed_out, asked, replied, broke, idle, reply_in,
  poll_once, wait, or_next, Context, context_failed, context_read, first_question,
  pending_questions,
}
use opencode_master.Gateway.Frames.{Heard}

-- A reply that was not there before, and that has a text.
abbrev IsNew : List String → CompletedReply → Type 0
IsNew known reply =
    (contains known reply.id ≡ false) × ((reply.id == "") ≡ false) × ((reply.text == "") ≡ false)

abbrev IsNewIf : List String → Option CompletedReply → Type 0
IsNewIf known none = Unit
IsNewIf known (some reply) = IsNew known reply

new_id-IsNew :
    (known : List String) (m : Message) (id : String) (text : String) (reasoning : String)
    → new_id known m ≡ some id
    → (text == "") ≡ false
    → IsNew known (record { id = id; text = text; reasoning = reasoning })
unfolding new_id
new_id-IsNew known m id text reasoning named h = ground (arith, named, h)

chosen-IsNew :
    (known : List String) (b : Bool) (found : CompletedReply) (reply : Option CompletedReply)
    → (b ≡ true → IsNew known found)
    → IsNewIf known reply
    → IsNewIf known (if b then some found else reply)
chosen-IsNew known true found reply h v = h refl
chosen-IsNew known false found reply h v = v

ends_reply-text : (m : Message) → ends_reply m ≡ true → (reply_text m == "") ≡ false
unfolding ends_reply
ends_reply-text m h = ground (arith, h)

completed-IsNew :
    (known thoughts : List String) (reply : Option CompletedReply) (messages : List Message)
    → IsNewIf known reply
    → IsNewIf known (completed_from known thoughts reply messages)
unfolding completed_from
completed-IsNew known thoughts reply [] v = v
completed-IsNew known thoughts reply (m ∷ messages) v =
    let thought = thoughts ++ reasoning_texts m in
    let next : Option String → Option CompletedReply = λ named. elim named [
      | none ↦ completed_from known thoughts reply messages
      | some id ↦
          completed_from known thought
            (if ends_reply m
              then some (record { id = id; text = reply_text m; reasoning = reasoning_of thought })
              else reply)
            messages
    ] in
    elim (Option-cases (new_id known m)) [
      | inl old ↦
          subst (λ named. IsNewIf known (next named)) (sym old)
            (completed-IsNew known thoughts reply messages v)
      | inr (id, new) ↦
          let found : CompletedReply = record {
            id = id;
            text = reply_text m;
            reasoning = reasoning_of thought;
          } in
          subst (λ named. IsNewIf known (next named)) (sym new)
            (completed-IsNew known thought (if ends_reply m then some found else reply) messages (
              chosen-IsNew known (ends_reply m) found reply
                (λ h.
                  new_id-IsNew known m id (reply_text m) (reasoning_of thought) new
                    (ends_reply-text m h))
                v))
    ]

-- What a round or the loop ends with, where it is a reply.
abbrev pub IsNewReply : List String → Waited → Type 0
IsNewReply known (replied reply heard) = IsNew known reply
IsNewReply known _ = Unit

idle-IsNewReply :
    (known : List String) (a b : Bool)
    → IsNewReply known (if a then suspended else if b then timed_out else waiting)
idle-IsNewReply known true b = tt
idle-IsNewReply known false true = tt
idle-IsNewReply known false false = tt

found-IsNewReply :
    (known : List String) (found : Option CompletedReply) (heard : Heard) (other : Waited)
    → IsNewIf known found
    → IsNewReply known other
    → IsNewReply known
        (elim found as (λ _. Waited) [ none ↦ other | some reply ↦ replied reply heard ])
found-IsNewReply known none heard other v w = w
found-IsNewReply known (some reply) heard other v w = v

asked-IsNewReply :
    (known : List String) (a : Bool) (found : Option Question) (reason : Option String)
    (other : Waited)
    → IsNewReply known other
    → IsNewReply known (
        if a
        then aborted
        else elim found as (λ _. Waited) [ some question ↦ asked question reason | none ↦ other ])
asked-IsNewReply known true found reason other w = tt
asked-IsNewReply known false none reason other w = w
asked-IsNewReply known false (some question) reason other w = tt

reply_in-IsNewReply :
    (deadline : ℕ) (known : List String) (poll : Poll) (context : Context)
    → IsNewReply known (reply_in deadline known poll context)
unfolding extract_completed_assistant_reply
reply_in-IsNewReply deadline known poll (context_failed message) = tt
reply_in-IsNewReply deadline known poll (context_read messages) =
    found-IsNewReply known (extract_completed_assistant_reply messages known) poll.late
      (idle deadline poll) (completed-IsNew known [] none messages tt)
      (idle-IsNewReply known (is_some poll.late.suspend_reason) (ltb deadline poll.now))

poll_once-IsNewReply :
    (deadline : ℕ) (known : List String) (poll : Poll)
    → IsNewReply known (poll_once deadline known poll)
unfolding poll_once
poll_once-IsNewReply deadline known poll =
    asked-IsNewReply known poll.is_aborted
      (first_question (pending_questions poll.questions poll.scan)) poll.early.suspend_reason
      (reply_in deadline known poll poll.context)
      (reply_in-IsNewReply deadline known poll poll.context)

or_next-IsNewReply :
    (known : List String) (first next : Waited)
    → IsNewReply known first
    → IsNewReply known next
    → IsNewReply known (or_next first next)
or_next-IsNewReply known waiting next v w = w
or_next-IsNewReply known aborted next v w = tt
or_next-IsNewReply known suspended next v w = tt
or_next-IsNewReply known timed_out next v w = tt
or_next-IsNewReply known (asked q r) next v w = tt
or_next-IsNewReply known (replied r h) next v w = v
or_next-IsNewReply known (broke message) next v w = tt

pub wait-IsNewReply :
    (rounds deadline : ℕ) (known : List String) (polls : ℕ → Poll) (k : ℕ)
    → IsNewReply known (wait rounds deadline known polls k)
unfolding wait
wait-IsNewReply zero deadline known polls k = tt
wait-IsNewReply (suc rounds) deadline known polls k =
    or_next-IsNewReply known (poll_once deadline known (polls k))
      (wait rounds deadline known polls (suc k)) (poll_once-IsNewReply deadline known (polls k))
      (wait-IsNewReply rounds deadline known polls (suc k))

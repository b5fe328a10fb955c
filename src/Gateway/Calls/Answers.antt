-- ===== src/Gateway/Calls/Answers.antt =====
-- src/services/opencode-gateway.ts: what `prompt` and `resume` return.
use Prim.Native.Nat.{ℕ, suc}
use opencode_master.Base.{
  subst, sym, String, Option, none, some, Bool, true, false, List, [], ◌∷◌, ◌≡◌, ◌+◌, ◌≤◌, ◌==◌,
  arith, refl, contains, is_some, if◌then◌else◌, inl, inr, ◌⊎◌, All, Option-cases,
}
use opencode_master.Gateway.{GatewayMessage, RunResult, Outcome, resulted, failed}
use opencode_master.Gateway.Messages.{truthy, Message}
use opencode_master.Gateway.Native.{
  Fetched, create_error, Poll, Waited, waiting, aborted, suspended, timed_out, asked, replied,
  broke, wait, context_read,
}
use opencode_master.Gateway.Native.Fresh.{IsNewReply, wait-IsNewReply}
use opencode_master.Gateway.Native.Waiting.{is_waiting, wait-ends}
use opencode_master.Gateway.Calls.{
  sent_or, opened_with, assistant_message, reply_reasoning, Opening, Opened, unopened, opened,
  open_run, outcome_of, run_opened, known_assistant, native_prompt, native_resume, error_of,
  reply_error,
}

outcome_of-ends :
    (b : Bool) (session_id : String) (w : Waited)
    → is_waiting w ≡ false
    → is_some (outcome_of b session_id w) ≡ true
outcome_of-ends b session_id w h = ground (arith, h)

run_opened-ends :
    (b : Bool) (session_id : String) (rounds now : ℕ) (polls : ℕ → Poll) (o : Opened)
    → now ≤ (polls 0).now
    → ((k : ℕ) → (polls k).now + 1000 ≤ (polls (suc k)).now)
    → 602 ≤ rounds
    → is_some (run_opened b session_id rounds now polls o) ≡ true
run_opened-ends b session_id rounds now polls (unopened message) first later enough = refl
run_opened-ends b session_id rounds now polls (opened known) first later enough =
    outcome_of-ends b session_id (wait rounds (now + 600000) known polls 0)
      (wait-ends known polls now rounds first later enough)

-- `prompt` and `resume` return or throw within 602 rounds of their loop, whatever the native opencode
-- answers, where the clock goes on by at least a second from a round to the next.
pub prompt-ends :
    (session_id : String) (o : Opening) (rounds : ℕ) (polls : ℕ → Poll)
    → o.now ≤ (polls 0).now
    → ((k : ℕ) → (polls k).now + 1000 ≤ (polls (suc k)).now)
    → 602 ≤ rounds
    → (is_some (native_prompt session_id o rounds polls) ≡ true)
      × (is_some (native_resume session_id o rounds polls) ≡ true)
unfolding native_prompt native_resume
prompt-ends session_id o rounds polls first later enough = (
  run_opened-ends true session_id rounds o.now polls
      (open_run (error_of "opencode prompt failed") o) first later enough,
  run_opened-ends false session_id rounds o.now polls (open_run reply_error o) first later enough,
)

-- No message of an assistant has this id.
abbrev IsUnseen : String → List Message → Type 0
IsUnseen id context = All (λ m. m.type ≡ "assistant" → m.id ≡ some id → ⊥) context

known_assistant-IsUnseen :
    (context : List Message) (id : String)
    → contains (known_assistant context) id ≡ false
    → IsUnseen id context
known_assistant-IsUnseen [] id h = tt
known_assistant-IsUnseen (m ∷ context) id h = elim (Option-cases m.id) [
  | inl unnamed ↦ (
    λ a e. ground (arith, unnamed),
    known_assistant-IsUnseen context id (ground (arith, unnamed)),
  )
  | inr (found, named) ↦
      (λ a e. ground (arith, named), known_assistant-IsUnseen context id (ground (arith, named)))
]

-- The message of a reply, as it is stored.
abbrev IsReplyTo : List Message → GatewayMessage → Type 0
IsReplyTo context message =
    (id : String) × (text : String) × (message.role ≡ "assistant")
    × (message.content ≡ some text)
    × (message.source_id ≡ some id)
    × ((text == "") ≡ false)
    × IsUnseen id context

-- The one message of a result that is complete.
abbrev pub HasReply : List Message → RunResult → Type 0
HasReply context result =
    (message : GatewayMessage) × (result.messages ≡ message ∷ []) × IsReplyTo context message

abbrev HasReplyIf : List Message → Option Outcome → Type 0
HasReplyIf context none = Unit
HasReplyIf context (some (failed message)) = Unit
HasReplyIf context (some (resulted result)) = result.is_completed ≡ true → HasReply context result

outcome_of-HasReply :
    (context : List Message) (b : Bool) (session_id : String) (w : Waited)
    → IsNewReply (known_assistant context) w
    → HasReplyIf context (outcome_of b session_id w)
outcome_of-HasReply context b session_id waiting v = tt
outcome_of-HasReply context b session_id aborted v = λ h. ground arith
outcome_of-HasReply context b session_id suspended v = λ h. ground arith
outcome_of-HasReply context b session_id timed_out v = tt
outcome_of-HasReply context b session_id (asked q r) v = λ h. ground arith
outcome_of-HasReply context b session_id (broke message) v = tt
outcome_of-HasReply context b session_id (replied reply heard) (new, named, filled) = λ h. (
  assistant_message reply.text (reply_reasoning reply heard) (truthy (some reply.id)),
  refl,
  (
    reply.id,
    reply.text,
    refl,
    refl,
    ground (arith, named),
    filled,
    known_assistant-IsUnseen context reply.id new,
  ),
)

abbrev KnowsIf : List Message → Opened → Type 0
KnowsIf context (unopened message) = Unit
KnowsIf context (opened known) = known ≡ known_assistant context

sent_or-KnowsIf :
    (error : Option String) (context : List Message) → KnowsIf context (sent_or error context)
sent_or-KnowsIf none context = refl
sent_or-KnowsIf (some message) context = tt

opened_with-KnowsIf :
    (send_error : Fetched → Option String) (o : Opening) (context : List Message)
    → KnowsIf context (opened_with send_error o (context_read context))
opened_with-KnowsIf send_error o context = streamed o.has_stream
  where
    streamed :
        (b : Bool)
        → KnowsIf context (
            if b
            then sent_or (send_error o.sent) context
            else unopened "opencode event stream unavailable")
    streamed true = sent_or-KnowsIf (send_error o.sent) context
    streamed false = tt

created-KnowsIf :
    (error : Option String) (context : List Message) (x : Opened)
    → KnowsIf context x
    → KnowsIf context (elim error as (λ _. Opened) [ some message ↦ unopened message | none ↦ x ])
created-KnowsIf none context x v = v
created-KnowsIf (some message) context x v = tt

open_run-KnowsIf :
    (send_error : Fetched → Option String) (o : Opening) (context : List Message)
    → o.context ≡ context_read context
    → KnowsIf context (open_run send_error o)
open_run-KnowsIf send_error o context read =
    created-KnowsIf (create_error o.created) context (opened_with send_error o o.context) (
      subst (λ c. KnowsIf context (opened_with send_error o c)) (sym read)
        (opened_with-KnowsIf send_error o context))

run_opened-HasReply :
    (b : Bool) (session_id : String) (rounds now : ℕ) (polls : ℕ → Poll) (context : List Message)
    (x : Opened)
    → KnowsIf context x
    → HasReplyIf context (run_opened b session_id rounds now polls x)
run_opened-HasReply b session_id rounds now polls context (unopened message) v = tt
run_opened-HasReply b session_id rounds now polls context (opened known) v =
    outcome_of-HasReply context b session_id (wait rounds (now + 600000) known polls 0) (
      subst (λ k. IsNewReply k (wait rounds (now + 600000) known polls 0)) v
        (wait-IsNewReply rounds (now + 600000) known polls 0))

-- When `prompt` or `resume` returns a result that is complete, the result has one message: an
-- assistant's, with a text that is not empty and with an id that no message of an assistant has in the
-- context that the run began with.
pub prompt-HasReply :
    (session_id : String) (o : Opening) (rounds : ℕ) (polls : ℕ → Poll) (context : List Message)
    (result : RunResult)
    → o.context ≡ context_read context
    → (native_prompt session_id o rounds polls ≡ some (resulted result))
      ⊎ (native_resume session_id o rounds polls ≡ some (resulted result))
    → result.is_completed ≡ true
    → HasReply context result
unfolding native_prompt native_resume
prompt-HasReply session_id o rounds polls context result read (inl e) h =
    subst (HasReplyIf context) e
      (run_opened-HasReply true session_id rounds o.now polls context
        (open_run (error_of "opencode prompt failed") o)
        (open_run-KnowsIf (error_of "opencode prompt failed") o context read))
      h
prompt-HasReply session_id o rounds polls context result read (inr e) h =
    subst (HasReplyIf context) e
      (run_opened-HasReply false session_id rounds o.now polls context (open_run reply_error o)
        (open_run-KnowsIf reply_error o context read))
      h

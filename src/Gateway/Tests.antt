-- ===== src/Gateway/Tests.antt =====
-- src/services/opencode-gateway.ts, run on small conversations.
use Prim.Native.Nat.{ℕ}
use opencode_master.Base.{
  String, Option, none, some, true, false, List, [], ◌∷◌, ◌≡◌, ◌+◌, ◌*◌, refl, arith, inl, is_some,
  text_dec, Bool-cases, trim,
}
use opencode_master.Gateway.{RunResult}
use opencode_master.Gateway.Messages.{
  extract_pending_question, completed_from, Message, Part, extract_completed_assistant_reply,
  new_id, ends_reply, reasoning_of,
}
use opencode_master.Gateway.Messages.Replies.{last_reply, extract_completed_assistant_reply_last}
use opencode_master.Gateway.Frames.{NativeEvent, listening, receive, first_text, nothing_heard}
use opencode_master.Gateway.Frames.Chunks.{receive-append}
use opencode_master.Gateway.Native.{wait, poll_once, pending_questions, Poll, context_read, fetched}
use opencode_master.Gateway.Calls.{Opening, native_prompt, native_resume, reply_result}
use opencode_master.Gateway.Calls.Answers.{prompt-ends, prompt-HasReply, HasReply}

abbrev part_of : String → String → Part
part_of type text = record {
  type = some type;
  id = none;
  text = some text;
  name = none;
  state = none;
}

abbrev assistant : String → Option String → List Part → Message
assistant id finish parts = record {
  type = "assistant";
  id = some id;
  text = none;
  finish = finish;
  parts = parts;
}

abbrev messages : List Message
messages =
    assistant "old" (some "stop") (part_of "text" "hi" ∷ [])
    ∷ assistant "a" none (part_of "reasoning" "think" ∷ [])
    ∷ assistant "b" (some "stop") (part_of "text" "42" ∷ [])
    ∷ []

extract_completed_assistant_reply_last_example :
    extract_completed_assistant_reply messages ("old" ∷ []) ≡ last_reply ("old" ∷ []) [] messages
extract_completed_assistant_reply_last_example =
    extract_completed_assistant_reply_last messages ("old" ∷ [])

-- The reply has the thought before it.
reply_found :
    last_reply ("old" ∷ []) [] messages
    ≡ some (record { id = "b"; text = "42"; reasoning = "think" })
unfolding new_id ends_reply reasoning_of trim text_dec Bool-cases
reply_found = refl

-- Any text is the delta of an event of session `s`.
abbrev parse : String → Option NativeEvent
parse text = some (record {
  type = some "session.next.text.delta";
  content = some (record {
    session_id = some "s";
    message_id = none;
    text = none;
    delta = some text;
    error_message = none;
  });
})

receive-append_example :
    receive parse [] first_text "s"
      (receive parse [] first_text "s" (listening "" nothing_heard) "data: on\n")
      "\ndata: tw"
    ≡ receive parse [] first_text "s" (listening "" nothing_heard) "data: on\n\ndata: tw"
receive-append_example =
    receive-append parse [] first_text "s" (listening "" nothing_heard) "data: on\n" "\ndata: tw"

abbrev opening : Opening
opening = record {
  created = fetched 200 "";
  context = context_read (assistant "old" (some "stop") (part_of "text" "hi" ∷ []) ∷ []);
  has_stream = true;
  sent = fetched 200 "";
  now = 5;
}

-- Nothing comes, and a second passes between two rounds.
abbrev silence : ℕ → Poll
silence k = record {
  is_aborted = false;
  questions = some [];
  scan = context_read [];
  early = nothing_heard;
  context = context_read [];
  late = nothing_heard;
  now = 5 + 1000 * k;
}

prompt-ends_example :
    (is_some (native_prompt "s" opening 602 silence) ≡ true)
    × (is_some (native_resume "s" opening 602 silence) ≡ true)
prompt-ends_example =
    prompt-ends "s" opening 602 silence (omega arith) (λ k. omega arith) (omega arith)

-- The reply is there at once.
abbrev answered : ℕ → Poll
answered k = record (silence k) { context = context_read messages }

abbrev answer : RunResult
answer = reply_result (record { id = "b"; text = "42"; reasoning = "think" }) nothing_heard

prompt-HasReply_example :
    HasReply (assistant "old" (some "stop") (part_of "text" "hi" ∷ []) ∷ []) answer
unfolding native_prompt wait poll_once pending_questions extract_pending_question
    extract_completed_assistant_reply completed_from new_id text_dec ends_reply trim reasoning_of
prompt-HasReply_example =
    prompt-HasReply "s" opening 1 answered
      (assistant "old" (some "stop") (part_of "text" "hi" ∷ []) ∷ []) answer refl (inl refl) refl

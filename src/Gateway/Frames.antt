-- ===== src/Gateway/Frames.antt =====
-- src/services/opencode-gateway.ts: `subscribeEvents`, which reads the stream of native events in chunks,
-- cuts it into frames, and passes the events of one session on. The text of a chunk is an argument;
-- `JSON.parse` is a parameter, with `none` where the reading of the stream ends with an error.
pub mod Chunks
use Prim.Native.String
use Prim.Native.String.{String}
use Prim.Native.Nat.{ℕ, zero, suc}
use opencode_master.Base.{
  Option, none, some, Bool, List, [], ◌∷◌, ◌++◌, ◌==◌, ◌&&◌, if◌then◌else◌, split, starts_with,
  trim, contains, eqb, ℕ, suc,
}
use opencode_master.Sessions.{is_text}
use opencode_master.Gateway.{Delta, DeltaKind}
use Prim.Native.Char.{Char, code}

-- `split("\n\n")`, as the parts that are ended by an empty line, and the last part.
abbrev pub Cut : Type 0
Cut = List String × String

abbrev pub add_char : Char → Cut → Cut
add_char c ([], rest) = ([], String.◌∷◌ c rest)
add_char c (frame ∷ frames, rest) = (String.◌∷◌ c frame ∷ frames, rest)

abbrev end_frame : Cut → Cut
end_frame (frames, rest) = ("" ∷ frames, rest)

abbrev pub is_newline : Char → Bool
is_newline c = eqb (code c) 10

unfoldable pub cut : String → Cut
cut String.[] = ([], "")
cut (String.◌∷◌ c String.[]) = ([], String.◌∷◌ c "")
cut (String.◌∷◌ c (String.◌∷◌ d s)) =
    let skipped = cut s in
    let kept = cut (String.◌∷◌ d s) in
    if is_newline c && is_newline d then end_frame skipped else add_char c kept

-- A native event, as far as it is read; `data` without its fields is `none`.
pub record EventData : Type 0 where
  pub session_id : Option String
  pub message_id : Option String
  pub text : Option String
  pub delta : Option String
  pub error_message : Option String

pub record NativeEvent : Type 0 where
  pub type : Option String
  pub content : Option EventData

-- `slice(6)`.
abbrev drop_chars : ℕ → String → String
drop_chars zero s = s
drop_chars (suc n) String.[] = ""
drop_chars (suc n) (String.◌∷◌ c s) = drop_chars n s

abbrev data_line : List String → Option String
data_line [] = none
data_line (line ∷ lines) =
    if starts_with "data: " line then some (drop_chars 6 line) else data_line lines

-- What the handlers of a run have gathered. Texts that have ended are kept by `on_text`.
pub record Heard : Type 0 where
  pub deltas : List Delta
  pub reply_text : Option String
  pub reply_reasoning : String
  pub suspend_reason : Option String

abbrev pub nothing_heard : Heard
nothing_heard = record {
  deltas = [];
  reply_text = none;
  reply_reasoning = "";
  suspend_reason = none;
}

-- `onTextEnded` of `prompt` and of `resume`.
abbrev pub first_text : Option String → String → Option String
first_text none text = some text
first_text (some old) text = some old

abbrev last_text : Option String → String → Option String
last_text old text = if trim text == "" then old else some text

abbrev delta_heard : DeltaKind → Option String → Heard → Heard
delta_heard kind none h = h
delta_heard kind (some delta) h = record h {
  deltas = h.deltas ++ record { kind = kind; delta = delta } ∷ [];
}

abbrev suspended_by : Option String → String → Option String
suspended_by none error = some error
suspended_by (some old) error = some old

-- The stream: it is open, with what came after the last whole frame, or its reading has failed.
pub data Stream : Type 0 where
  listening : String → Heard → Stream
  broken : Heard → Stream

module _ (parse : String → Option NativeEvent) (known : List String)
    (on_text : Option String → String → Option String) (session_id : String) where
  -- A message that has an id which is not known yet.
  abbrev when_new : Option String → Option String → (String → Heard → Heard) → Heard → Heard
  when_new (some id) (some text) f h =
      if id == "" then h else if contains known id then h else f text h
  when_new _ _ f h = h

  unfoldable pub hear : Option String → EventData → Heard → Heard
  hear none d h = h
  hear (some type) d h =
      if type == "session.next.text.delta"
      then delta_heard DeltaKind.text d.delta h
      else if type == "session.next.reasoning.delta"
      then delta_heard DeltaKind.reasoning d.delta h
      else if type == "session.next.text.ended"
      then when_new d.message_id d.text
          (λ text h. record h { reply_text = on_text h.reply_text text }) h
      else if type == "session.next.reasoning.ended"
      then when_new d.message_id d.text (λ text h. record h { reply_reasoning = text }) h
      else if type == "session.next.step.failed"
      then when_new d.message_id d.error_message
          (λ error h. record h { suspend_reason = suspended_by h.suspend_reason error }) h
      else h

  abbrev hear_event : NativeEvent → Heard → Heard
  hear_event event h = elim event.content [
    | none ↦ h
    | some d ↦ if is_text d.session_id session_id then hear event.type d h else h
  ]

  -- A frame, or `none` where its data is no JSON. A frame without data is skipped.
  abbrev read_frame : String → Heard → Option Heard
  read_frame frame h = elim (data_line (split b'\n' frame)) [
    | none ↦ some h
    | some text ↦ elim (parse text) [ none ↦ none | some event ↦ some (hear_event event h) ]
  ]

  unfoldable pub read_frames : List String → String → Heard → Stream
  read_frames [] rest h = listening rest h
  read_frames (frame ∷ frames) rest h = elim (read_frame frame h) [
    | none ↦ broken h
    | some heard ↦ read_frames frames rest heard
  ]

  unfoldable pub receive : Stream → String → Stream
  receive (broken h) chunk = broken h
  receive (listening buffer h) chunk =
      let (frames, rest) = cut (String.◌++◌ buffer chunk) in read_frames frames rest h

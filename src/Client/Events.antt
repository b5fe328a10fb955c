-- ===== src/Client/Events.antt =====
-- src/client.ts: `stream`, which reads server-sent events in chunks, cuts what it has into frames, and
-- passes the event of each frame on. The text of a chunk is an argument; `JSON.parse` is a parameter,
-- with `none` where it throws.
use Prim.Native.Char.{code}
use Prim.Native.Nat.{ℕ, zero, suc}
use Prim.Native.String
use Prim.Native.String.{String}
use opencode_master.Base.{
  Option, none, some, List, [], ◌∷◌, ◌++◌, ◌==◌, ◌&&◌, if◌then◌else◌, split, starts_with, trim, eqb,
  map_some, split, is_success,
}

-- `indexOf("\n\n")`, with `none` for -1.
unfoldable pub index_of_break : String → Option ℕ
index_of_break String.[] = none
index_of_break (String.◌∷◌ c String.[]) = none
index_of_break (String.◌∷◌ c (String.◌∷◌ d s)) =
    let rest = index_of_break (String.◌∷◌ d s) in
    if eqb (code c) 10 && eqb (code d) 10 then some 0 else map_some suc rest

-- `slice(0, n)`.
unfoldable pub first_chars : ℕ → String → String
first_chars zero s = ""
first_chars (suc n) String.[] = ""
first_chars (suc n) (String.◌∷◌ c s) = String.◌∷◌ c (first_chars n s)

-- `slice(n)`.
unfoldable pub from_char : ℕ → String → String
from_char zero s = s
from_char (suc n) String.[] = ""
from_char (suc n) (String.◌∷◌ c s) = from_char n s

-- The length of a text, in characters.
unfoldable pub count : String → ℕ
count String.[] = 0
count (String.◌∷◌ c s) = suc (count s)

-- The inner loop: the frames of the buffer, and what stays in it.
unfoldable pub take_frames : ℕ → String → List String × String
take_frames zero buffer = ([], buffer)
take_frames (suc fuel) buffer = elim (index_of_break buffer) [
  | none ↦ ([], buffer)
  | some i ↦
      let (frames, rest) = take_frames fuel (from_char (suc (suc i)) buffer) in
      (first_chars i buffer ∷ frames, rest)
]

unfoldable pub first_data : List String → Option String
first_data [] = none
first_data (line ∷ lines) =
    let rest = first_data lines in if starts_with "data:" line then some line else rest

-- `dataLine`.
unfoldable pub data_of : String → Option String
data_of frame = map_some (λ line. trim (from_char 5 line)) (first_data (split b'\n' frame))

module _ {ℓ} {A : Type ℓ} (parse : String → Option A) where
  abbrev parsed : String → List A
  parsed line = if line == "" then [] else elim (parse line) [ none ↦ [] | some event ↦ event ∷ [] ]

  -- The events that a frame is passed on as: one, or none where it has no data or no JSON.
  unfoldable pub heard : String → List A
  heard frame = elim (data_of frame) [ none ↦ [] | some line ↦ parsed line ]

  unfoldable pub heard_all : List String → List A
  heard_all [] = []
  heard_all (frame ∷ frames) = heard frame ++ heard_all frames

  -- A round of the outer loop: the events of a chunk, and the buffer after it. A frame is at least as
  -- long as its end, so the loop runs at most as often as the buffer has characters.
  unfoldable pub receive : String → String → List A × String
  receive buffer chunk =
      let whole = String.◌++◌ buffer chunk in
      let (frames, rest) = take_frames (count whole) whole in (heard_all frames, rest)

  -- The outer loop, on the chunks up to the end of the answer.
  unfoldable pub receive_all : String → List String → List A × String
  receive_all buffer [] = ([], buffer)
  receive_all buffer (chunk ∷ chunks) =
      let (events, rest) = receive buffer chunk in
      let (others, last) = receive_all rest chunks in (events ++ others, last)

  -- The events that `stream` passes on, from the status of the answer and the chunks of its body: none
  -- where `fetch` rejects, the answer is an error, or it has no body.
  unfoldable pub listen : Option (ℕ × Option (List String)) → List A
  listen none = []
  listen (some (status, none)) = []
  listen (some (status, some chunks)) =
      let (events, rest) = receive_all "" chunks in if is_success status then events else []

-- ===== src/Client/Delivery.antt =====
-- src/http/server.ts and src/client.ts: the client hears the events that the master writes.
use Prim.Native.Char.{Char}
use Prim.Native.Nat.{suc}
use Prim.Native.String
use Prim.Native.String.{String}
use text.Mathlib.TextLemmas.{append_assoc, append-nil as text_append-nil, cons-append, nil-append}
use opencode_master.Base.{
  sym, ◌∙◌, ap, ◌&&◌, Option, none, some, true, false, ◌==◌, trim, All, List, [], ◌∷◌, ◌++◌, ◌≡◌,
  refl, arith, template, map, map_some, split_at, HasNo, split, split_at-append, split_at-whole,
  glue, starts_with, if◌then◌else◌, Bool,
}
use opencode_master.Gateway.Frames.{Cut, cut, add_char, is_newline}
use opencode_master.Gateway.Frames.Chunks.{cut-other, cut-append, then_cut}
use opencode_master.Client.Events.{
  from_char, count, heard_all, heard, data_of, first_data, receive_all,
}
use opencode_master.Http.Sse.{event_frame, stream_text}
use opencode_master.Client.Reading.{receive_all-chunks}

abbrev add_text : String → Cut → Cut
add_text String.[] k = k
add_text (String.◌∷◌ c s) k = add_char c (add_text s k)

and-false : {b : Bool} → b ≡ false → (c : Bool) → (b && c) ≡ false
and-false h c = ground (arith, h)

cut-char :
    (c : Char) (t : String) → is_newline c ≡ false → cut (String.◌∷◌ c t) ≡ add_char c (cut t)
unfolding cut
cut-char c String.[] h = refl
cut-char c (String.◌∷◌ d t) h = cut-other c d t (and-false h (is_newline d))

-- A line is not cut.
cut-line : (s t : String) → HasNo b'\n' s → cut (String.◌++◌ s t) ≡ add_text s (cut t)
cut-line String.[] t h = ap cut (nil-append t)
cut-line (String.◌∷◌ c s) t h =
    ap cut (cons-append c s t)
    ∙ cut-char c (String.◌++◌ s t) h.0
    ∙ ap (add_char c) (cut-line s t h.1)

add_text-frame :
    (s frame : String) (frames : List String) (rest : String)
    → add_text s (frame ∷ frames, rest) ≡ (String.◌++◌ s frame ∷ frames, rest)
add_text-frame String.[] frame frames rest = ap (λ t. (t ∷ frames, rest)) (sym (nil-append frame))
add_text-frame (String.◌∷◌ c s) frame frames rest =
    ap (add_char c) (add_text-frame s frame frames rest)
    ∙ ap (λ t. (t ∷ frames, rest)) (sym (cons-append c s frame))

starts_with-append : (p s : String) → starts_with p (String.◌++◌ p s) ≡ true
unfolding starts_with
starts_with-append String.[] s = refl
starts_with-append (String.◌∷◌ c p) s =
    ap (starts_with (String.◌∷◌ c p)) (cons-append c p s) ∙ ground (arith, starts_with-append p s)

from_char-append : (p s : String) → from_char (count p) (String.◌++◌ p s) ≡ s
unfolding from_char count
from_char-append String.[] s = nil-append s
from_char-append (String.◌∷◌ c p) s =
    ap (from_char (suc (count p))) (cons-append c p s) ∙ from_char-append p s

cut-newline :
    (c d : Char) (s t : String)
    → is_newline d ≡ false
    → cut (String.◌++◌ (String.◌∷◌ c (String.◌∷◌ d s)) t)
      ≡ add_char c (cut (String.◌++◌ (String.◌∷◌ d s) t))
cut-newline c d s t h =
    ap cut (cons-append c (String.◌∷◌ d s) t ∙ ap (String.◌∷◌ c) (cons-append d s t))
    ∙ cut-other c d (String.◌++◌ s t) (ground (arith, h))
    ∙ ap (λ k. add_char c (cut k)) (sym (cons-append d s t))

module _ (id json : String) where
  -- The frame of an event without its end.
  abbrev body : String
  body = String.◌++◌ "id: " (String.◌++◌ id (String.◌++◌ "\ndata: " json))

  cut-body :
      HasNo b'\n' id
      → HasNo b'\n' json
      → cut (template ("id: " ∷ id ∷ "\ndata: " ∷ json ∷ "\n\n" ∷ [])) ≡ (body ∷ [], "")
  unfolding cut
  cut-body h k =
      cut-line "id: " (String.◌++◌ id (String.◌++◌ "\ndata: " (String.◌++◌ json "\n\n")))
        (refl, (refl, (refl, (refl, tt))))
      ∙ ap (add_text "id: ") (
          cut-line id (String.◌++◌ "\ndata: " (String.◌++◌ json "\n\n")) h
          ∙ ap (add_text id) (
              cut-newline "\n" "d" "ata: " (String.◌++◌ json "\n\n") refl
              ∙ ap (add_char "\n") (
                  cut-line "data: " (String.◌++◌ json "\n\n")
                    (refl, (refl, (refl, (refl, (refl, (refl, tt))))))
                  ∙ ap (add_text "data: ") (cut-line json "\n\n" k))))
      ∙ ap (λ k. add_text "id: " (add_text id (add_text "\ndata: " k)))
          (add_text-frame json "" [] "" ∙ ap (λ t. (t ∷ [], "")) (text_append-nil json))
      ∙ ap (λ k. add_text "id: " (add_text id k)) (add_text-frame "\ndata: " json [] "")
      ∙ ap (add_text "id: ") (add_text-frame id (String.◌++◌ "\ndata: " json) [] "")
      ∙ add_text-frame "id: " (String.◌++◌ id (String.◌++◌ "\ndata: " json)) [] ""

  split-body :
      HasNo b'\n' id
      → HasNo b'\n' json
      → split b'\n' body ≡ String.◌++◌ "id: " id ∷ String.◌++◌ "data: " json ∷ []
  unfolding split split_at
  split-body h k =
      ap (λ (k : String × List String). k.0 ∷ k.1)
        (split_at-append b'\n' "id: " (String.◌++◌ id (String.◌++◌ "\ndata: " json))
          ∙ ap (glue ("id: ", [])) (
              split_at-append b'\n' id (String.◌++◌ "\ndata: " json)
              ∙ ap (λ k. glue k (split_at b'\n' (String.◌++◌ "\ndata: " json)))
                  (split_at-whole b'\n' id h)
              ∙ ap (glue (id, [])) (
                  split_at-append b'\n' "\ndata: " json
                  ∙ ap (glue ("", "data: " ∷ [])) (split_at-whole b'\n' json k)))
          ∙ ap (λ t. (String.◌++◌ "id: " t, String.◌++◌ "data: " json ∷ [])) (text_append-nil id))

  id_line : starts_with "data:" (String.◌++◌ "id: " id) ≡ false
  unfolding starts_with
  id_line = ap (starts_with "data:") (cons-append "i" "d: " id)

  data_line : String.◌++◌ "data: " json ≡ String.◌++◌ "data:" (String.◌++◌ " " json)
  data_line = append_assoc "data:" " " json

  data_of-body :
      HasNo b'\n' id → HasNo b'\n' json → data_of body ≡ some (trim (String.◌++◌ " " json))
  unfolding data_of first_data from_char count
  data_of-body h k =
      ap (λ lines. map_some (λ line. trim (from_char 5 line)) (first_data lines)) (split-body h k)
      ∙ ap
          (λ b.
            map_some (λ line. trim (from_char 5 line))
              (if b
                then some (String.◌++◌ "id: " id)
                else first_data (String.◌++◌ "data: " json ∷ [])))
          id_line
      ∙ ap
          (λ line.
            map_some (λ line. trim (from_char 5 line))
              (if starts_with "data:" line then some line else none))
          data_line
      ∙ ap
          (λ b.
            map_some (λ line. trim (from_char 5 line))
              (if b then some (String.◌++◌ "data:" (String.◌++◌ " " json)) else none))
          (starts_with-append "data:" (String.◌++◌ " " json))
      ∙ ap (λ t. some (trim t)) (from_char-append "data:" (String.◌++◌ " " json))

module _ {ℓ} {A : Type ℓ} (print : A → String) (id_of : A → String)
    (parse : String → Option A) where
  -- The id and the JSON of an event have no line break, the JSON is neither empty nor does it begin or
  -- end with white space, and it is parsed back.
  abbrev IsSentAs : A → Type ℓ
  IsSentAs event =
      HasNo b'\n' (id_of event)
      × HasNo b'\n' (print event)
      × ((print event == "") ≡ false)
      × (trim (String.◌++◌ " " (print event)) ≡ print event)
      × (parse (print event) ≡ some event)

  heard-body :
      (event : A) → IsSentAs event → heard parse (body (id_of event) (print event)) ≡ event ∷ []
  unfolding heard
  heard-body event (h, k, filled, trimmed, parsed) =
      ground (arith, data_of-body (id_of event) (print event) h k, filled, trimmed, parsed)

  abbrev bodies : List A → List String
  bodies events = map (λ event. body (id_of event) (print event)) events

  cut-frames :
      (events : List A)
      → All IsSentAs events
      → cut (template (map (event_frame print id_of) events)) ≡ (bodies events, "")
  unfolding cut event_frame
  cut-frames [] h = refl
  cut-frames (event ∷ events) h =
      cut-append (event_frame print id_of event) (template (map (event_frame print id_of) events))
      ∙ ap (λ k. then_cut k (template (map (event_frame print id_of) events)))
          (cut-body (id_of event) (print event) h.0.0 h.0.1)
      ∙ ap (λ t. (body (id_of event) (print event) ∷ (cut t).0, (cut t).1))
          (nil-append (template (map (event_frame print id_of) events)))
      ∙ ap (λ (k : Cut). (body (id_of event) (print event) ∷ k.0, k.1)) (cut-frames events h.1)

  heard-bodies : (events : List A) → All IsSentAs events → heard_all parse (bodies events) ≡ events
  unfolding heard_all
  heard-bodies [] h = refl
  heard-bodies (event ∷ events) h =
      ap (λ k. k ++ heard_all parse (bodies events)) (heard-body event h.0)
      ∙ ap (λ k. event ∷ k) (heard-bodies events h.1)

  -- The client hears exactly the events that the master wrote, in the order in which they were written,
  -- whatever chunks their text arrives in, and nothing stays in its buffer: the first frame, which
  -- carries no data, is skipped. The printed events are JSON that is parsed back, without line breaks.
  pub receive_all-stream_text :
      (events : List A) (chunks : List String)
      → All IsSentAs events
      → template chunks ≡ stream_text print id_of events
      → receive_all parse "" chunks ≡ (events, "")
  unfolding stream_text cut heard_all heard data_of first_data split starts_with
  receive_all-stream_text events chunks h e =
      let frames = template (map (event_frame print id_of) events) in
      receive_all-chunks parse chunks
      ∙ ap (λ t. (heard_all parse (cut t).0, (cut t).1)) e
      ∙ ap (λ (k : Cut). (heard_all parse k.0, k.1))
          (cut-append ": connected\n\n" frames
            ∙ ap (λ t. (": connected" ∷ (cut t).0, (cut t).1)) (nil-append frames)
            ∙ ap (λ (k : Cut). (": connected" ∷ k.0, k.1)) (cut-frames events h))
      ∙ ap (λ k. (k, "")) (heard-bodies events h)

-- ===== src/Gateway/Frames/Chunks.antt =====
-- src/services/opencode-gateway.ts: how the stream is cut into chunks does not matter.
use Prim.Native.String
use text.Mathlib.TextLemmas.{append_assoc, cons-append}
use Prim.Native.Char.{Char}
use Prim.Native.String.{String}
use opencode_master.Base.{
  Option-cases, subst, sym, ◌∙◌, if◌then◌else◌, ap, ◌&&◌, Bool-cases, inl, inr, Option, true, false,
  List, [], ◌∷◌, ◌++◌, ◌≡◌, refl, arith,
}
use opencode_master.Gateway.Frames.{
  read_frame, Cut, cut, add_char, end_frame, is_newline, NativeEvent, Heard, Stream, listening,
  broken, read_frames, receive,
}

-- The frames of a text that goes on.
abbrev pub then_cut : Cut → String → Cut
then_cut (frames, rest) more =
    let (others, last) = cut (String.◌++◌ rest more) in (frames ++ others, last)

add_char-whole :
    (c : Char) (k : Cut) (s : String)
    → (k.0 ≡ [] → k.1 ≡ s)
    → (add_char c k).0 ≡ []
    → (add_char c k).1 ≡ String.◌∷◌ c s
add_char-whole c ([], rest) s h e = ap (String.◌∷◌ c) (h refl)
add_char-whole c (frame ∷ frames, rest) s h e = ground (arith, e)

pub cut-both :
    (c d : Char) (s : String)
    → (is_newline c && is_newline d) ≡ true
    → cut (String.◌∷◌ c (String.◌∷◌ d s)) ≡ end_frame (cut s)
unfolding cut
cut-both c d s h = ap (λ b. if b then end_frame (cut s) else add_char c (cut (String.◌∷◌ d s))) h

pub cut-other :
    (c d : Char) (s : String)
    → (is_newline c && is_newline d) ≡ false
    → cut (String.◌∷◌ c (String.◌∷◌ d s)) ≡ add_char c (cut (String.◌∷◌ d s))
unfolding cut
cut-other c d s h = ap (λ b. if b then end_frame (cut s) else add_char c (cut (String.◌∷◌ d s))) h

cons-ne-nil : (x : String) (xs : List String) → x ∷ xs ≡ [] → ⊥
cons-ne-nil x xs e = cc

-- A cut without frames is the whole text.
cut-whole : (s : String) → (cut s).0 ≡ [] → (cut s).1 ≡ s
unfolding cut
cut-whole String.[] h = refl
cut-whole (String.◌∷◌ c String.[]) h = refl
cut-whole (String.◌∷◌ c (String.◌∷◌ d s)) h = elim (Bool-cases (is_newline c && is_newline d)) [
  | inl both ↦ absurd (cons-ne-nil "" (cut s).0 (sym (ap (λ k. k.0) (cut-both c d s both)) ∙ h))
  | inr other ↦
      ap (λ k. k.1) (cut-other c d s other)
      ∙ add_char-whole c (cut (String.◌∷◌ d s)) (String.◌∷◌ d s) (cut-whole (String.◌∷◌ d s))
          (sym (ap (λ k. k.0) (cut-other c d s other)) ∙ h)
]

add_char-then :
    (c : Char) (k : Cut) (s more : String)
    → (k.0 ≡ [] → k.1 ≡ s)
    → cut (String.◌∷◌ c (String.◌++◌ s more)) ≡ add_char c (cut (String.◌++◌ s more))
    → add_char c (then_cut k more) ≡ then_cut (add_char c k) more
add_char-then c ([], rest) s more h e =
    subst (λ r. add_char c (cut (String.◌++◌ r more)) ≡ cut (String.◌++◌ (String.◌∷◌ c r) more))
      (sym (h refl)) (sym e ∙ ap cut (sym (cons-append c s more)))
add_char-then c (frame ∷ frames, rest) s more h e = refl

-- The frames of a text that goes on are its own, and then those of its rest with what comes after.
pub cut-append : (s more : String) → cut (String.◌++◌ s more) ≡ then_cut (cut s) more
unfolding cut
cut-append String.[] more = refl
cut-append (String.◌∷◌ c String.[]) more = refl
cut-append (String.◌∷◌ c (String.◌∷◌ d s)) more =
    let whole =
      ap cut (cons-append c (String.◌∷◌ d s) more ∙ ap (String.◌∷◌ c) (cons-append d s more)) in
    elim (Bool-cases (is_newline c && is_newline d)) [
      | inl both ↦
          whole
          ∙ cut-both c d (String.◌++◌ s more) both
          ∙ ap end_frame (cut-append s more)
          ∙ ap (λ k. then_cut k more) (sym (cut-both c d s both))
      | inr other ↦
          whole
          ∙ cut-other c d (String.◌++◌ s more) other
          ∙ ap (λ t. add_char c (cut t)) (sym (cons-append d s more))
          ∙ ap (add_char c) (cut-append (String.◌∷◌ d s) more)
          ∙ add_char-then c (cut (String.◌∷◌ d s)) (String.◌∷◌ d s) more
              (cut-whole (String.◌∷◌ d s))
              (ap (λ t. cut (String.◌∷◌ c t)) (cons-append d s more)
                ∙ cut-other c d (String.◌++◌ s more) other
                ∙ ap (λ t. add_char c (cut t)) (sym (cons-append d s more)))
          ∙ ap (λ k. then_cut k more) (sym (cut-other c d s other))
    ]

module _ (parse : String → Option NativeEvent) (known : List String)
    (on_text : Option String → String → Option String) (session_id : String) where
  read_frames-then :
      (frames : List String) (rest : String) (h : Heard) (b : String)
      → receive parse known on_text session_id
          (read_frames parse known on_text session_id frames rest h)
          b
        ≡ (let (others, last) = cut (String.◌++◌ rest b) in
            read_frames parse known on_text session_id (frames ++ others) last h)
  unfolding receive read_frames
  read_frames-then [] rest h b = refl
  read_frames-then (frame ∷ frames) rest h b =
      elim (Option-cases (read_frame parse known on_text session_id frame h)) [
        | inl failed ↦ ground (arith, failed)
        | inr (heard, next) ↦ ground (arith, next, read_frames-then frames rest heard b)
      ]

  -- A text that arrives in two chunks is heard like one that arrives at once, wherever it is cut, also
  -- within a frame, a line or its end: the deltas, the texts and errors that were kept, the rest that
  -- waits for more, and whether the reading has failed, are the same.
  pub receive-append :
      (stream : Stream) (a b : String)
      → receive parse known on_text session_id (receive parse known on_text session_id stream a) b
        ≡ receive parse known on_text session_id stream (String.◌++◌ a b)
  unfolding receive
  receive-append (broken h) a b = refl
  receive-append (listening buffer h) a b =
      let (frames, rest) = cut (String.◌++◌ buffer a) in
      read_frames-then frames rest h b
      ∙ ap (λ k. read_frames parse known on_text session_id k.0 k.1 h)
          (sym (cut-append (String.◌++◌ buffer a) b) ∙ ap cut (append_assoc buffer a b))

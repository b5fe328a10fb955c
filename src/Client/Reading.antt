-- ===== src/Client/Reading.antt =====
-- src/client.ts: the frames that `stream` takes from its buffer are those of the whole text.
use Prim.Native.Char.{Char}
use Prim.Native.Nat.{ℕ, zero, suc}
use Prim.Native.String
use Prim.Native.String.{String}
use text.Mathlib.TextLemmas.{append_assoc, append-nil as text_append-nil, nil-append}
use opencode_master.Base.{
  Option-cases, subst, sym, ◌∙◌, if◌then◌else◌, ap, ◌&&◌, Bool-cases, inl, inr, Option, none, some,
  true, false, List, [], ◌∷◌, ◌++◌, ◌≡◌, ◌≤◌, ◌<◌, refl, arith, map_some, template,
  append_assoc as list_append_assoc, length, length-append,
}
use opencode_master.Gateway.Frames.{Cut, cut, add_char, is_newline}
use opencode_master.Gateway.Frames.Chunks.{cut-both, cut-other, cut-append, then_cut}
use opencode_master.Client.Events.{
  index_of_break, first_chars, from_char, count, take_frames, heard_all, heard, receive,
  receive_all,
}

module _ (c d : Char) (s : String) where
  index-both :
      (is_newline c && is_newline d) ≡ true
      → index_of_break (String.◌∷◌ c (String.◌∷◌ d s)) ≡ some 0
  unfolding index_of_break
  index-both h = ap (λ b. if b then some 0 else map_some suc (index_of_break (String.◌∷◌ d s))) h

  index-other :
      (is_newline c && is_newline d) ≡ false
      → index_of_break (String.◌∷◌ c (String.◌∷◌ d s))
        ≡ map_some suc (index_of_break (String.◌∷◌ d s))
  unfolding index_of_break
  index-other h = ap (λ b. if b then some 0 else map_some suc (index_of_break (String.◌∷◌ d s))) h

map_some-none : (o : Option ℕ) → map_some suc o ≡ none → o ≡ none
map_some-none none h = refl
map_some-none (some n) h = ground (arith, h)

map_some-some :
    (o : Option ℕ) (i : ℕ) → map_some suc o ≡ some i → (j : ℕ) × (o ≡ some j) × (i ≡ suc j)
map_some-some none i h = ground (arith, h)
map_some-some (some n) i h = (n, refl, ground (arith, h))

-- A text without an empty line is not cut.
cut-none : (s : String) → index_of_break s ≡ none → cut s ≡ ([], s)
unfolding cut
cut-none String.[] h = refl
cut-none (String.◌∷◌ c String.[]) h = refl
cut-none (String.◌∷◌ c (String.◌∷◌ d s)) h = elim (Bool-cases (is_newline c && is_newline d)) [
  | inl both ↦ ground (arith, h, index-both c d s both)
  | inr other ↦
      cut-other c d s other
      ∙ ap (add_char c) (
          cut-none (String.◌∷◌ d s)
            (map_some-none (index_of_break (String.◌∷◌ d s)) (sym (index-other c d s other) ∙ h)))
]

-- A text is cut at its first empty line, and what comes after is shorter.
abbrev IsCutAt : String → ℕ → Type 0
IsCutAt s i =
    (cut s ≡ (
      first_chars i s ∷ (cut (from_char (suc (suc i)) s)).0,
      (cut (from_char (suc (suc i)) s)).1,
    ))
    × (count (from_char (suc (suc i)) s) < count s)

cut-some : (s : String) (i : ℕ) → index_of_break s ≡ some i → IsCutAt s i
unfolding cut index_of_break first_chars from_char count
cut-some String.[] i h = ground (arith, h)
cut-some (String.◌∷◌ c String.[]) i h = ground (arith, h)
cut-some (String.◌∷◌ c (String.◌∷◌ d s)) i h = elim (Bool-cases (is_newline c && is_newline d)) [
  | inl both ↦
      subst (IsCutAt (String.◌∷◌ c (String.◌∷◌ d s))) {x = 0}
        (ground (arith, h, index-both c d s both)) (cut-both c d s both, omega arith)
  | inr other ↦
      let (j, found, next) =
        map_some-some (index_of_break (String.◌∷◌ d s)) i (sym (index-other c d s other) ∙ h) in
      let (here, less) = cut-some (String.◌∷◌ d s) j found in
      subst (IsCutAt (String.◌∷◌ c (String.◌∷◌ d s))) (sym next)
        (cut-other c d s other ∙ ap (add_char c) here, omega (arith, less))
]

-- The inner loop ends, within as many rounds as the buffer has characters, with the frames of the
-- whole buffer, cut at each empty line, and the text after the last one.
pub take_frames-cut : (fuel : ℕ) (s : String) → count s ≤ fuel → take_frames fuel s ≡ cut s
unfolding take_frames cut count
take_frames-cut zero String.[] h = refl
take_frames-cut zero (String.◌∷◌ c s) h = absurd (omega (arith, h))
take_frames-cut (suc fuel) s h = elim (Option-cases (index_of_break s)) [
  | inl none_left ↦ ground (arith, none_left, cut-none s none_left)
  | inr (i, found) ↦
      let (here, less) = cut-some s i found in
      ground (
        arith,
        found,
        here,
        take_frames-cut fuel (from_char (suc (suc i)) s) (omega (arith, less, h)),
      )
]

-- What is left after the frames has no empty line.
append-same : {A : Type 0} (xs ys : List A) → xs ++ ys ≡ xs → ys ≡ []
append-same xs [] h = refl
append-same xs (y ∷ ys) h = absurd (omega (arith, length-append xs (y ∷ ys), ap length h))

rest-cut : (s : String) → cut (cut s).1 ≡ ([], (cut s).1)
rest-cut s =
    let same = sym (cut-append s "") ∙ ap cut (text_append-nil s) in
    let without = ap cut (text_append-nil (cut s).1) in
    let no_more = append-same (cut s).0 (cut (String.◌++◌ (cut s).1 "")).0 (ap (λ k. k.0) same) in
    sym without
    ∙ ap (λ k. (k, (cut (String.◌++◌ (cut s).1 "")).1)) no_more
    ∙ ap (λ k. ([], k)) (ap (λ k. k.1) same)

module _ {ℓ} {A : Type ℓ} (parse : String → Option A) where
  heard_all-append :
      (xs ys : List String) → heard_all parse (xs ++ ys) ≡ heard_all parse xs ++ heard_all parse ys
  unfolding heard_all
  heard_all-append [] ys = refl
  heard_all-append (x ∷ xs) ys =
      ap (λ k. heard parse x ++ k) (heard_all-append xs ys)
      ∙ sym (list_append_assoc (heard parse x) (heard_all parse xs) (heard_all parse ys))

  -- The events of the frames of a cut, and its rest.
  abbrev read_cut : Cut → List A × String
  read_cut (frames, rest) = (heard_all parse frames, rest)

  abbrev after_cut : Cut → List String → List A × String
  after_cut (frames, rest) chunks =
      let (others, last) = receive_all parse rest chunks in (heard_all parse frames ++ others, last)

  receive_all-cons :
      (chunk : String) (chunks : List String) (buffer : String)
      → receive_all parse buffer (chunk ∷ chunks)
        ≡ after_cut (cut (String.◌++◌ buffer chunk)) chunks
  unfolding receive_all receive
  receive_all-cons chunk chunks buffer =
      let whole = String.◌++◌ buffer chunk in
      ap (λ k. after_cut k chunks) (take_frames-cut (count whole) whole (omega arith))

  read_cut-then :
      (k : Cut) (more : String)
      → (
        heard_all parse k.0 ++ (read_cut (cut (String.◌++◌ k.1 more))).0,
        (cut (String.◌++◌ k.1 more)).1,
      )
        ≡ read_cut (then_cut k more)
  read_cut-then k more =
      ap (λ events. (events, (cut (String.◌++◌ k.1 more)).1))
        (sym (heard_all-append k.0 (cut (String.◌++◌ k.1 more)).0))

  receive_all-from :
      (chunks : List String) (buffer : String)
      → cut buffer ≡ ([], buffer)
      → receive_all parse buffer chunks ≡ read_cut (cut (String.◌++◌ buffer (template chunks)))
  unfolding receive_all heard_all
  receive_all-from [] buffer h =
      sym (ap (λ t. read_cut (cut t)) (text_append-nil buffer) ∙ ap read_cut h)
  receive_all-from (chunk ∷ chunks) buffer h =
      let whole = String.◌++◌ buffer chunk in
      receive_all-cons chunk chunks buffer
      ∙ ap (λ (k : List A × String). (heard_all parse (cut whole).0 ++ k.0, k.1))
          (receive_all-from chunks (cut whole).1 (rest-cut whole))
      ∙ read_cut-then (cut whole) (template chunks)
      ∙ ap read_cut (sym (cut-append whole (template chunks)))
      ∙ ap (λ t. read_cut (cut t)) (append_assoc buffer chunk (template chunks))

  -- Whatever chunks a stream arrives in, the events are those of the frames of the whole text, in
  -- order, and what is left is the text after its last empty line.
  pub receive_all-chunks :
      (chunks : List String)
      → receive_all parse "" chunks
        ≡ (heard_all parse (cut (template chunks)).0, (cut (template chunks)).1)
  unfolding cut
  receive_all-chunks chunks =
      receive_all-from chunks "" refl ∙ ap (λ t. read_cut (cut t)) (nil-append (template chunks))

-- ===== src/Base/Splits.antt =====
-- Texts without a character, and how they are split.
use Prim.Native.Char.{Char, code}
use Prim.Native.Nat.{ℕ}
use Prim.Native.String
use Prim.Native.String.{String}
use mathlib.Core.Bool.{false, true}
use mathlib.Core.List.{List, [], ◌∷◌}
use mathlib.Core.Path.{◌≡◌, refl, ap, ◌∙◌, sym}
use mathlib.Core.Logic.{inl, inr}
use text.Mathlib.TextLemmas.{cons-append, nil-append}
use opencode_master.Base.Tests.{eqb, if◌then◌else◌, Bool-cases}
use opencode_master.Base.Text.{split, split_at, add_to_first}

-- No character of the text is the mark.
abbrev pub HasNo : ℕ → String → Type 0
HasNo mark String.[] = Unit
HasNo mark (String.◌∷◌ c s) = (eqb (code c) mark ≡ false) × HasNo mark s

split_at-cons :
    (mark : ℕ) (c : Char) (s : String)
    → eqb (code c) mark ≡ false
    → split_at mark (String.◌∷◌ c s) ≡ add_to_first c (split_at mark s)
unfolding split_at
split_at-cons mark c s h =
    ap
      (λ b.
        if b
        then ("", (split_at mark s).0 ∷ (split_at mark s).1)
        else add_to_first c (split_at mark s))
      h

split_at-mark :
    (mark : ℕ) (c : Char) (s : String)
    → eqb (code c) mark ≡ true
    → split_at mark (String.◌∷◌ c s) ≡ ("", (split_at mark s).0 ∷ (split_at mark s).1)
unfolding split_at
split_at-mark mark c s h =
    ap
      (λ b.
        if b
        then ("", (split_at mark s).0 ∷ (split_at mark s).1)
        else add_to_first c (split_at mark s))
      h

pub split_at-whole : (mark : ℕ) (s : String) → HasNo mark s → split_at mark s ≡ (s, [])
unfolding split_at
split_at-whole mark String.[] h = refl
split_at-whole mark (String.◌∷◌ c s) h =
    split_at-cons mark c s h.0 ∙ ap (add_to_first c) (split_at-whole mark s h.1)

-- The parts of a text that goes on: its last part is joined with the first of what comes after.
abbrev pub glue : String × List String → String × List String → String × List String
glue (part, []) (first, others) = (String.◌++◌ part first, others)
glue (part, next ∷ parts) (first, others) =
    let rest = glue (next, parts) (first, others) in (part, rest.0 ∷ rest.1)

glue-first :
    (c : Char) (k l : String × List String) → add_to_first c (glue k l) ≡ glue (add_to_first c k) l
glue-first c (part, []) (first, others) = ap (λ s. (s, others)) (sym (cons-append c part first))
glue-first c (part, next ∷ parts) (first, others) = refl

glue-mark :
    (k l : String × List String) → glue ("", k.0 ∷ k.1) l ≡ ("", (glue k l).0 ∷ (glue k l).1)
glue-mark (part, parts) (first, others) = refl

pub split_at-append :
    (mark : ℕ) (s t : String)
    → split_at mark (String.◌++◌ s t) ≡ glue (split_at mark s) (split_at mark t)
unfolding split_at
split_at-append mark String.[] t =
    ap (split_at mark) (nil-append t)
    ∙ ap (λ s. (s, (split_at mark t).1)) (sym (nil-append (split_at mark t).0))
split_at-append mark (String.◌∷◌ d s) t =
    ap (split_at mark) (cons-append d s t) ∙ elim (Bool-cases (eqb (code d) mark)) [
      | inl same ↦
          split_at-mark mark d (String.◌++◌ s t) same
          ∙ ap (λ k. ("", k.0 ∷ k.1)) (split_at-append mark s t)
          ∙ sym (glue-mark (split_at mark s) (split_at mark t))
          ∙ ap (λ k. glue k (split_at mark t)) (sym (split_at-mark mark d s same))
      | inr other ↦
          split_at-cons mark d (String.◌++◌ s t) other
          ∙ ap (add_to_first d) (split_at-append mark s t)
          ∙ glue-first d (split_at mark s) (split_at mark t)
          ∙ ap (λ k. glue k (split_at mark t)) (sym (split_at-cons mark d s other))
    ]

-- A text without the mark is one part.
pub split-whole : (mark : ℕ) (s : String) → HasNo mark s → split mark s ≡ s ∷ []
unfolding split
split-whole mark s h = ap (λ k. k.0 ∷ k.1) (split_at-whole mark s h)

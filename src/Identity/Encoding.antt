-- ===== src/Identity/Encoding.antt =====
-- src/auth/jwt.ts: base64 in the characters of URLs, and back.
use Prim.Native.Char.{Char, code}
use Prim.Native.Nat.{ℕ, zero, suc}
use Prim.Native.String
use Prim.Native.String.{String}
use text.Mathlib.TextLemmas.{cons-append, nil-append}
use text.Mathlib.TextEquality.{Char-path}
use opencode_master.Base.{
  some, true, false, List, ◌≡◌, ◌==◌, refl, sym, subst, ap, ◌∙◌, arith, inl, inr, Bool-cases, ◌+◌,
  ◌-◌, ◌*◌, ◌/◌, ◌%◌, ◌≤◌, if◌then◌else◌, eqb, HasNo, strip_end, text_dec,
}
use opencode_master.Identity.Tokens.{
  Crypto, replace_char, length_of, pads, base64url, base64url_decode, pad_end,
}

-- The text before its padding, and the padding, of a text in base64: its length is a multiple of four.
pub record IsBase64 (s : String) : Type 0 where
  pub core : String
  pub padding : ℕ
  pub whole : s ≡ String.◌++◌ core (pads padding)
  pub few : padding ≤ 3
  pub fours : (length_of core + padding) % 4 ≡ 0
  pub no_pad : HasNo b'=' core
  pub no_dash : HasNo b'-' core
  pub no_line : HasNo b'_' core
  pub no_dot : HasNo b'.' core

abbrev url : String → String
url s = replace_char b'/' "_" (replace_char b'+' "-" s)

abbrev unurl : String → String
unurl s = replace_char b'_' "/" (replace_char b'-' "+" s)

module _ (mark : ℕ) (to : Char) where
  replace-mark :
      (c : Char) (s : String)
      → eqb (code c) mark ≡ true
      → replace_char mark to (String.◌∷◌ c s) ≡ String.◌∷◌ to (replace_char mark to s)
  unfolding replace_char
  replace-mark c s h =
      ap
        (λ b.
          if b
          then String.◌∷◌ to (replace_char mark to s)
          else String.◌∷◌ c (replace_char mark to s))
        h

  replace-other :
      (c : Char) (s : String)
      → eqb (code c) mark ≡ false
      → replace_char mark to (String.◌∷◌ c s) ≡ String.◌∷◌ c (replace_char mark to s)
  unfolding replace_char
  replace-other c s h =
      ap
        (λ b.
          if b
          then String.◌∷◌ to (replace_char mark to s)
          else String.◌∷◌ c (replace_char mark to s))
        h

  replace-append :
      (s t : String)
      → replace_char mark to (String.◌++◌ s t)
        ≡ String.◌++◌ (replace_char mark to s) (replace_char mark to t)
  unfolding replace_char
  replace-append String.[] t =
      ap (replace_char mark to) (nil-append t) ∙ sym (nil-append (replace_char mark to t))
  replace-append (String.◌∷◌ c s) t =
      ap (replace_char mark to) (cons-append c s t) ∙ elim (Bool-cases (eqb (code c) mark)) [
        | inl same ↦
            replace-mark c (String.◌++◌ s t) same
            ∙ ap (String.◌∷◌ to) (replace-append s t)
            ∙ sym (cons-append to (replace_char mark to s) (replace_char mark to t))
            ∙ ap (λ k. String.◌++◌ k (replace_char mark to t)) (sym (replace-mark c s same))
        | inr other ↦
            replace-other c (String.◌++◌ s t) other
            ∙ ap (String.◌∷◌ c) (replace-append s t)
            ∙ sym (cons-append c (replace_char mark to s) (replace_char mark to t))
            ∙ ap (λ k. String.◌++◌ k (replace_char mark to t)) (sym (replace-other c s other))
      ]

  replace-none : (s : String) → HasNo mark s → replace_char mark to s ≡ s
  unfolding replace_char
  replace-none String.[] h = refl
  replace-none (String.◌∷◌ c s) h = replace-other c s h.0 ∙ ap (String.◌∷◌ c) (replace-none s h.1)

  replace-length : (s : String) → length_of (replace_char mark to s) ≡ length_of s
  unfolding replace_char length_of
  replace-length String.[] = refl
  replace-length (String.◌∷◌ c s) = elim (Bool-cases (eqb (code c) mark)) [
    | inl same ↦ ground (arith, same, replace-length s)
    | inr other ↦ ground (arith, other, replace-length s)
  ]

  -- A character that is not the new one is not there if it was not.
  HasNo-replace :
      (n : ℕ) (s : String) → eqb (code to) n ≡ false → HasNo n s → HasNo n (replace_char mark to s)
  unfolding replace_char
  HasNo-replace n String.[] h k = tt
  HasNo-replace n (String.◌∷◌ c s) h k = elim (Bool-cases (eqb (code c) mark)) [
    | inl same ↦ subst (HasNo n) (sym (replace-mark c s same)) (h, HasNo-replace n s h k.1)
    | inr other ↦ subst (HasNo n) (sym (replace-other c s other)) (k.0, HasNo-replace n s h k.1)
  ]

code_of : (c : Char) (n : ℕ) → eqb (code c) n ≡ true → code c ≡ n
code_of c n h = ground (arith, h)

-- The characters of the URL form are put back.
unurl-url : (s : String) → HasNo b'-' s → HasNo b'_' s → unurl (url s) ≡ s
unfolding replace_char
unurl-url String.[] h k = refl
unurl-url (String.◌∷◌ c s) h k =
    let rest = replace_char b'+' "-" s in
    let urled = replace_char b'/' "_" rest in
    let plussed = replace_char b'-' "+" urled in
    elim (Bool-cases (eqb (code c) b'+')) [
      | inl plus ↦
          ap (λ t. unurl (replace_char b'/' "_" t)) (replace-mark b'+' "-" c s plus)
          ∙ ap unurl (replace-other b'/' "_" "-" rest refl)
          ∙ ap (replace_char b'_' "/") (replace-mark b'-' "+" "-" urled refl)
          ∙ replace-other b'_' "/" "+" plussed refl
          ∙ ap (String.◌∷◌ "+") (unurl-url s h.1 k.1)
          ∙ ap (λ d. String.◌∷◌ d s) (Char-path "+" c (sym (code_of c b'+' plus)))
      | inr not_plus ↦
          ap (λ t. unurl (replace_char b'/' "_" t)) (replace-other b'+' "-" c s not_plus)
          ∙ elim (Bool-cases (eqb (code c) b'/')) [
            | inl slash ↦
                ap unurl (replace-mark b'/' "_" c rest slash)
                ∙ ap (replace_char b'_' "/") (replace-other b'-' "+" "_" urled refl)
                ∙ replace-mark b'_' "/" "_" plussed refl
                ∙ ap (String.◌∷◌ "/") (unurl-url s h.1 k.1)
                ∙ ap (λ d. String.◌∷◌ d s) (Char-path "/" c (sym (code_of c b'/' slash)))
            | inr not_slash ↦
                ap unurl (replace-other b'/' "_" c rest not_slash)
                ∙ ap (replace_char b'_' "/") (replace-other b'-' "+" c urled h.0)
                ∙ replace-other b'_' "/" c plussed k.0
                ∙ ap (String.◌∷◌ c) (unurl-url s h.1 k.1)
          ]
    ]

HasNo-pads : (mark n : ℕ) → eqb b'=' mark ≡ false → HasNo mark (pads n)
unfolding pads
HasNo-pads mark zero h = tt
HasNo-pads mark (suc n) h = (h, HasNo-pads mark n h)

strip_end-only_pads : (n : ℕ) → strip_end b'=' (pads n) ≡ ""
unfolding strip_end pads text_dec
strip_end-only_pads zero = refl
strip_end-only_pads (suc n) =
    ap (λ t. if t == "" then "" else String.◌∷◌ "=" t) (strip_end-only_pads n)

strip_end-pads : (s : String) (n : ℕ) → HasNo b'=' s → strip_end b'=' (String.◌++◌ s (pads n)) ≡ s
unfolding strip_end
strip_end-pads String.[] n h = ap (strip_end b'=') (nil-append (pads n)) ∙ strip_end-only_pads n
strip_end-pads (String.◌∷◌ c s) n h =
    ap (strip_end b'=') (cons-append c s (pads n)) ∙ ground (arith, h.0, strip_end-pads s n h.1)

module _ (s : String) (b : IsBase64 s) where
  url-pads : url s ≡ String.◌++◌ (url b.core) (pads b.padding)
  url-pads =
      ap url b.whole
      ∙ ap (replace_char b'/' "_") (replace-append b'+' "-" b.core (pads b.padding))
      ∙ replace-append b'/' "_" (replace_char b'+' "-" b.core)
          (replace_char b'+' "-" (pads b.padding))
      ∙ ap (λ t. String.◌++◌ (url b.core) (replace_char b'/' "_" t))
          (replace-none b'+' "-" (pads b.padding) (HasNo-pads b'+' b.padding refl))
      ∙ ap (String.◌++◌ (url b.core))
          (replace-none b'/' "_" (pads b.padding) (HasNo-pads b'/' b.padding refl))

  HasNo-url :
      (mark : ℕ)
      → eqb b'-' mark ≡ false
      → eqb b'_' mark ≡ false
      → HasNo mark b.core
      → HasNo mark (url b.core)
  HasNo-url mark h k m =
      HasNo-replace b'/' "_" mark (replace_char b'+' "-" b.core) k
        (HasNo-replace b'+' "-" mark b.core h m)

  -- The URL form of a text in base64 is its core, in other characters.
  strip-url : strip_end b'=' (url s) ≡ url b.core
  strip-url =
      ap (strip_end b'=') url-pads
      ∙ strip_end-pads (url b.core) b.padding (HasNo-url b'=' refl refl b.no_pad)

  url-length : length_of (url b.core) ≡ length_of b.core
  url-length =
      replace-length b'/' "_" (replace_char b'+' "-" b.core) ∙ replace-length b'+' "-" b.core

  missing_pads : (length_of b.core + 3) / 4 * 4 - length_of b.core ≡ b.padding
  missing_pads = omega (arith, b.few, b.fours)

  -- The text is padded again to what it was.
  pad_end-unurl : pad_end ((length_of (url b.core) + 3) / 4 * 4) (unurl (url b.core)) ≡ s
  pad_end-unurl =
      ap (pad_end ((length_of (url b.core) + 3) / 4 * 4)) (unurl-url b.core b.no_dash b.no_line)
      ∙ ap (λ n. String.◌++◌ b.core (pads ((n + 3) / 4 * 4 - length_of b.core))) url-length
      ∙ ap (λ n. String.◌++◌ b.core (pads n)) missing_pads
      ∙ sym b.whole

module _ (crypto : Crypto) (bytes : List ℕ) (b : IsBase64 (crypto.to_base64 bytes)) where
  base64url-core : base64url crypto bytes ≡ url b.core
  unfolding base64url
  base64url-core = strip-url (crypto.to_base64 bytes) b

  pub base64url-round :
      crypto.from_base64 (crypto.to_base64 bytes) ≡ some bytes
      → base64url_decode crypto (base64url crypto bytes) ≡ some bytes
  unfolding base64url_decode
  base64url-round h =
      ap (base64url_decode crypto) base64url-core
      ∙ ap crypto.from_base64 (pad_end-unurl (crypto.to_base64 bytes) b)
      ∙ h

  pub base64url-HasNo : HasNo b'.' (base64url crypto bytes)
  base64url-HasNo =
      subst (HasNo b'.') (sym base64url-core)
        (HasNo-url (crypto.to_base64 bytes) b b'.' refl refl b.no_dot)

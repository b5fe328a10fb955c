-- ===== src/Identity/Issued.antt =====
-- src/auth/jwt.ts and src/services/identity.ts: a token that was issued is verified until it expires.
use Prim.Native.Nat.{ℕ}
use Prim.Native.String
use Prim.Native.String.{String}
use text.Mathlib.TextLemmas.{nil-append, append-nil as text_append-nil}
use opencode_master.Base.{
  Option, none, some, Bool, true, false, List, [], ◌∷◌, ◌≡◌, refl, ap, ◌∙◌, arith, Bool-cases, ◌+◌,
  ◌/◌, if◌then◌else◌, ltb, HasNo, split, split_at, split_at-append, split_at-whole, glue, template,
  text_dec,
}
use opencode_master.Types.{Json, Fields, AuthContext, Role, admin, user, worker, slave, returns}
use opencode_master.Identity.Tokens.{
  Crypto, base64url, sign_jwt, verify_jwt, issue_token, verify_token, bytes_eq, role_named,
  role_text, header, signing_input, unexpired, checked, verify_parts, payload_of, context_of_result,
}
use opencode_master.Identity.Encoding.{IsBase64, base64url-round, base64url-HasNo}

-- The three parts of a token.
dot_part :
    (p : String) → HasNo b'.' p → split_at b'.' (String.◌++◌ "." (String.◌++◌ p "")) ≡ ("", p ∷ [])
unfolding split_at
dot_part p h =
    ap (λ t. split_at b'.' (String.◌++◌ "." t)) (text_append-nil p)
    ∙ split_at-append b'.' "." p
    ∙ ap (glue ("", "" ∷ [])) (split_at-whole b'.' p h)
    ∙ ap (λ t. ("", t ∷ [])) (nil-append p)

split-token :
    (h p g : String)
    → HasNo b'.' h
    → HasNo b'.' p
    → HasNo b'.' g
    → split b'.' (template (template (h ∷ "." ∷ p ∷ []) ∷ "." ∷ g ∷ [])) ≡ h ∷ p ∷ g ∷ []
unfolding split
split-token h p g a b c =
    let input = template (h ∷ "." ∷ p ∷ []) in
    ap (λ (k : String × List String). k.0 ∷ k.1)
      (split_at-append b'.' input (String.◌++◌ "." (String.◌++◌ g ""))
        ∙ ap (λ k. glue k (split_at b'.' (String.◌++◌ "." (String.◌++◌ g ""))))
            (split_at-append b'.' h (String.◌++◌ "." (String.◌++◌ p ""))
              ∙ ap (λ k. glue k (split_at b'.' (String.◌++◌ "." (String.◌++◌ p ""))))
                  (split_at-whole b'.' h a)
              ∙ ap (glue (h, [])) (dot_part p b)
              ∙ ap (λ t. (t, p ∷ [])) (text_append-nil h))
        ∙ ap (glue (h, p ∷ [])) (dot_part g c)
        ∙ ap (λ t. (h, t ∷ g ∷ [])) (text_append-nil p))

bytes_eq_refl : (bs : List ℕ) → bytes_eq bs bs ≡ true
bytes_eq_refl [] = refl
bytes_eq_refl (b ∷ bs) = ground (arith, bytes_eq_refl bs)

role_named-role_text : (role : Role) → role_named (role_text role) ≡ some role
unfolding text_dec Bool-cases
role_named-role_text admin = refl
role_named-role_text user = refl
role_named-role_text worker = refl
role_named-role_text slave = refl

module _ (crypto : Crypto) (secret : String) (ttl_seconds : ℕ) (auth : AuthContext) (now : ℕ) where
  -- The payload of an issued token, and the bytes of its parts.
  abbrev claims : Fields
  claims = Fields.field "sub" (Json.str auth.sub) (
      Fields.field "tenant" (Json.str auth.tenant) (
        Fields.field "role" (Json.str (role_text auth.role)) (
          Fields.field "iat" (Json.num (now / 1000))
            (Fields.field "exp" (Json.num (now / 1000 + ttl_seconds)) Fields.end))))

  abbrev head_bytes : List ℕ
  head_bytes = crypto.encode (crypto.print (header crypto))

  abbrev payload_bytes : List ℕ
  payload_bytes = crypto.encode (crypto.print (Json.obj claims))

  abbrev sig_bytes : List ℕ
  sig_bytes = crypto.hmac (crypto.encode (signing_input crypto (Json.obj claims))) secret

  read_claims :
      (b : Bool)
      → context_of_result (returns (if b then none else some claims))
        ≡ returns (if b then none else some auth)
  unfolding text_dec Bool-cases
  read_claims true = refl
  read_claims false =
      ap
        (λ (o : Option Role). returns (elim o as (λ _. Option AuthContext) [
          | none ↦ none
          | some role ↦ some (record { sub = auth.sub; tenant = auth.tenant; role = role })
        ]))
        (role_named-role_text auth.role)

  module _ (head : IsBase64 (crypto.to_base64 head_bytes))
      (payload : IsBase64 (crypto.to_base64 payload_bytes))
      (sig : IsBase64 (crypto.to_base64 sig_bytes))
      (payload_back : crypto.from_base64 (crypto.to_base64 payload_bytes) ≡ some payload_bytes)
      (sig_back : crypto.from_base64 (crypto.to_base64 sig_bytes) ≡ some sig_bytes)
      (read_back : crypto.parse (crypto.decode payload_bytes) ≡ some (Json.obj claims)) where
    abbrev head_part : String
    head_part = base64url crypto head_bytes

    abbrev payload_part : String
    payload_part = base64url crypto payload_bytes

    abbrev sig_part : String
    sig_part = base64url crypto sig_bytes

    issued :
        issue_token crypto secret ttl_seconds auth now
        ≡ template (template (head_part ∷ "." ∷ payload_part ∷ []) ∷ "." ∷ sig_part ∷ [])
    unfolding issue_token sign_jwt text_dec Bool-cases
    issued = refl

    payload_of-part : payload_of crypto payload_part ≡ some (Json.obj claims)
    payload_of-part =
        ap
          (λ (o : Option (List ℕ)). elim o as (λ _. Option Json) [
            | none ↦ none
            | some bytes ↦ crypto.parse (crypto.decode bytes)
          ])
          (base64url-round crypto payload_bytes payload payload_back)
        ∙ read_back

    verify_jwt-issued :
        (later : ℕ)
        → verify_jwt crypto (issue_token crypto secret ttl_seconds auth now) secret later
          ≡ returns (unexpired (later / 1000) (some (Json.obj claims)))
    unfolding verify_jwt
    verify_jwt-issued later =
        ap (λ token. verify_parts crypto (split b'.' token) secret later) issued
        ∙ ap (λ parts. verify_parts crypto parts secret later)
            (split-token head_part payload_part sig_part (base64url-HasNo crypto head_bytes head)
              (base64url-HasNo crypto payload_bytes payload) (base64url-HasNo crypto sig_bytes sig))
        ∙ ap (checked crypto secret later head_part payload_part)
            (base64url-round crypto sig_bytes sig sig_back)
        ∙ ap
            (λ b.
              if b
              then returns (unexpired (later / 1000) (payload_of crypto payload_part))
              else returns none)
            (bytes_eq_refl sig_bytes)
        ∙ ap (λ o. returns (unexpired (later / 1000) o)) payload_of-part

    -- A token that was issued for a user is verified as that user's, with the tenant and the role, until
    -- its time is over, and refused after that, if base64 and JSON are read back and the three parts are
    -- texts in base64 before they are written for a URL.
    pub verify_token-issue_token :
        (later : ℕ)
        → verify_token crypto secret (issue_token crypto secret ttl_seconds auth now) later
          ≡ returns (if ltb (now / 1000 + ttl_seconds) (later / 1000) then none else some auth)
    unfolding verify_token text_dec Bool-cases
    verify_token-issue_token later =
        ap context_of_result (verify_jwt-issued later)
        ∙ read_claims (ltb (now / 1000 + ttl_seconds) (later / 1000))

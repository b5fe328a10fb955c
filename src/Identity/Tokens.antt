-- ===== src/Identity/Tokens.antt =====
-- src/auth/jwt.ts and the tokens of src/services/identity.ts: a token that is signed, and verified. What
-- the runtime does is the record `Crypto`: `btoa` and `atob` on bytes, with `none` where `atob` throws,
-- the HMAC, the encoding of texts, and JSON. The clock's reading is in milliseconds.
use Prim.Native.Char.{Char, code}
use Prim.Native.Nat.{ℕ, zero, suc}
use Prim.Native.String
use Prim.Native.String.{String}
use opencode_master.Base.{
  Option, none, some, Bool, true, false, List, [], ◌∷◌, ◌==◌, ◌&&◌, ◌+◌, ◌-◌, ◌*◌, ◌/◌,
  if◌then◌else◌, eqb, ltb, split, strip_end, template,
}
use opencode_master.Types.{
  Json, Fields, Role, admin, user, worker, slave, AuthContext, Result, returns, throws, internal,
}
use opencode_master.Journal.History.{find_field}

pub record Crypto : Type 0 where
  pub to_base64 : List ℕ → String
  pub from_base64 : String → Option (List ℕ)
  pub hmac : List ℕ → String → List ℕ
  pub encode : String → List ℕ
  pub decode : List ℕ → String
  pub print : Json → String
  pub parse : String → Option Json

-- `replaceAll` of a character by another.
unfoldable pub replace_char : ℕ → Char → String → String
replace_char mark to String.[] = ""
replace_char mark to (String.◌∷◌ c s) =
    let rest = replace_char mark to s in
    if eqb (code c) mark then String.◌∷◌ to rest else String.◌∷◌ c rest

unfoldable pub length_of : String → ℕ
length_of String.[] = 0
length_of (String.◌∷◌ c s) = suc (length_of s)

-- The padding of `padEnd`.
unfoldable pub pads : ℕ → String
pads zero = ""
pads (suc n) = String.◌∷◌ "=" (pads n)

abbrev pub pad_end : ℕ → String → String
pad_end n s = String.◌++◌ s (pads (n - length_of s))

abbrev pub bytes_eq : List ℕ → List ℕ → Bool
bytes_eq [] [] = true
bytes_eq (a ∷ xs) (b ∷ ys) = let rest = bytes_eq xs ys in eqb a b && rest
bytes_eq _ _ = false

abbrev pub set_field : String → Json → Fields → Fields
set_field k v Fields.end = Fields.field k v Fields.end
set_field k v (Fields.field j w fields) =
    let rest = set_field k v fields in
    if j == k then Fields.field k v fields else Fields.field j w rest

abbrev pub role_text : Role → String
role_text admin = "admin"
role_text user = "user"
role_text worker = "worker"
role_text slave = "slave"

abbrev pub role_named : String → Option Role
role_named name =
    if name == "admin"
    then some admin
    else if name == "user"
    then some user
    else if name == "worker"
    then some worker
    else if name == "slave"
    then some slave
    else none

abbrev text_field : String → Fields → Option String
text_field name fields = elim (find_field name fields) [ some (Json.str s) ↦ some s | _ ↦ none ]

abbrev role_field : Fields → Option Role
role_field fields = elim (text_field "role" fields) [ none ↦ none | some name ↦ role_named name ]

-- The payload, if it is an object whose `exp` is a number that is not in the past.
abbrev pub unexpired : ℕ → Option Json → Option Fields
unexpired seconds (some (Json.obj fields)) = elim (find_field "exp" fields) [
  | some (Json.num exp) ↦ if ltb exp seconds then none else some fields
  | _ ↦ none
]
unexpired seconds _ = none

abbrev context_of : Fields → Option AuthContext
context_of fields = elim (text_field "sub" fields) [
  | none ↦ none
  | some sub ↦ elim (text_field "tenant" fields) [
    | none ↦ none
    | some tenant ↦ elim (role_field fields) [
      | none ↦ none
      | some role ↦ some (record { sub = sub; tenant = tenant; role = role })
    ]
  ]
]

abbrev pub context_of_result : Result (Option Fields) → Result (Option AuthContext)
context_of_result (throws e) = throws e
context_of_result (returns none) = returns none
context_of_result (returns (some fields)) = returns (context_of fields)

module _ (crypto : Crypto) where
  unfoldable pub base64url : List ℕ → String
  base64url input =
      strip_end b'=' (replace_char b'/' "_" (replace_char b'+' "-" (crypto.to_base64 input)))

  unfoldable pub base64url_decode : String → Option (List ℕ)
  base64url_decode input = crypto.from_base64 (
      pad_end ((length_of input + 3) / 4 * 4) (replace_char b'_' "/" (replace_char b'-' "+" input)))

  abbrev pub header : Json
  header =
      Json.obj
        (Fields.field "alg" (Json.str "HS256") (Fields.field "typ" (Json.str "JWT") Fields.end))

  abbrev body : Fields → ℕ → ℕ → Json
  body payload ttl_seconds now = Json.obj (
      set_field "exp" (Json.num (now / 1000 + ttl_seconds))
        (set_field "iat" (Json.num (now / 1000)) payload))

  abbrev pub signing_input : Json → String
  signing_input payload = template (
      base64url (crypto.encode (crypto.print header))
      ∷ "."
      ∷ base64url (crypto.encode (crypto.print payload))
      ∷ [])

  unfoldable pub sign_jwt : Fields → String → ℕ → ℕ → String
  sign_jwt payload secret ttl_seconds now =
      let input = signing_input (body payload ttl_seconds now) in
      template (input ∷ "." ∷ base64url (crypto.hmac (crypto.encode input) secret) ∷ [])

  -- The payload of a part; what throws in the reading of it gives none.
  abbrev pub payload_of : String → Option Json
  payload_of part = elim (base64url_decode part) [
    | none ↦ none
    | some bytes ↦ crypto.parse (crypto.decode bytes)
  ]

  -- The reading of the signature is not in the `try`: it throws.
  abbrev pub checked : String → ℕ → String → String → Option (List ℕ) → Result (Option Fields)
  checked secret now head payload none = throws (internal "InvalidCharacterError")
  checked secret now head payload (some provided) =
      let expected = crypto.hmac (crypto.encode (template (head ∷ "." ∷ payload ∷ []))) secret in
      if bytes_eq expected provided
      then returns (unexpired (now / 1000) (payload_of payload))
      else returns none

  abbrev pub verify_parts : List String → String → ℕ → Result (Option Fields)
  verify_parts (head ∷ (payload ∷ (sig ∷ []))) secret now =
      checked secret now head payload (base64url_decode sig)
  verify_parts _ secret now = returns none

  unfoldable pub verify_jwt : String → String → ℕ → Result (Option Fields)
  verify_jwt token secret now = verify_parts (split b'.' token) secret now

  unfoldable pub issue_token : String → ℕ → AuthContext → ℕ → String
  issue_token secret ttl_seconds auth now =
      let payload = Fields.field "sub" (Json.str auth.sub) (
        Fields.field "tenant" (Json.str auth.tenant)
          (Fields.field "role" (Json.str (role_text auth.role)) Fields.end)) in
      sign_jwt payload secret ttl_seconds now

  unfoldable pub verify_token : String → String → ℕ → Result (Option AuthContext)
  verify_token secret token now = context_of_result (verify_jwt token secret now)

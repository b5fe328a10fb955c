-- ===== src/Identity/Tests.antt =====
-- src/services/identity.ts and src/auth/jwt.ts, run on a user and a token.
use opencode_master.Base.{
  ℕ, String, Option, List, none, some, [], ◌∷◌, ◌≡◌, ◌==◌, if◌then◌else◌, refl, arith, text_dec,
  Bool-cases,
}
use opencode_master.Types.{returns, Json, Fields, AuthContext, user}
use opencode_master.Database.{Database, UserRow}
use opencode_master.Identity.{ensure_user}
use opencode_master.Identity.Tokens.{Crypto, issue_token, verify_token, length_of, pads}
use opencode_master.Identity.Encoding.{IsBase64}
use opencode_master.Identity.Issued.{verify_token-issue_token}
use opencode_master.Samples.{sample}

abbrev owner : UserRow
owner = record { id = "u"; tenant_id = "t"; email = none; created_at = 2 }

abbrev with_owner : Database
with_owner = ensure_user sample "t" "u" none 1 2

-- A user that is there already keeps its tenant.
kept : (ensure_user with_owner "other" "u" none 3 4).users ≡ owner ∷ []
unfolding ensure_user text_dec Bool-cases
kept = refl

-- The signature is one byte, any JSON is printed as a letter, and base64 knows two lists of bytes.
abbrev toy_base64 : List ℕ → String
toy_base64 [] = "ab+/"
toy_base64 _ = "/w=="

abbrev toy_bytes : String → Option (List ℕ)
toy_bytes text = if text == "ab+/" then some [] else some (1 ∷ [])

abbrev toy : Crypto
toy = record {
  to_base64 = toy_base64;
  from_base64 = toy_bytes;
  hmac = λ input secret. 1 ∷ [];
  encode = λ text. [];
  decode = λ bytes. "j";
  print = λ json. "j";
  parse = λ text. some (
      Json.obj (
        Fields.field "sub" (Json.str "u") (
          Fields.field "tenant" (Json.str "t") (
            Fields.field "role" (Json.str "user")
              (Fields.field "iat" (Json.num 5) (Fields.field "exp" (Json.num 65) Fields.end))))));
}

abbrev someone : AuthContext
someone = record { sub = "u"; tenant = "t"; role = user }

whole-IsBase64 : IsBase64 "ab+/"
unfolding length_of pads
whole-IsBase64 = record {
  core = "ab+/";
  padding = 0;
  whole = refl;
  few = omega arith;
  fours = refl;
  no_pad = (refl, (refl, (refl, (refl, tt))));
  no_dash = (refl, (refl, (refl, (refl, tt))));
  no_line = (refl, (refl, (refl, (refl, tt))));
  no_dot = (refl, (refl, (refl, (refl, tt))));
}

padded-IsBase64 : IsBase64 "/w=="
unfolding length_of pads
padded-IsBase64 = record {
  core = "/w";
  padding = 2;
  whole = refl;
  few = omega arith;
  fours = refl;
  no_pad = (refl, (refl, tt));
  no_dash = (refl, (refl, tt));
  no_line = (refl, (refl, tt));
  no_dot = (refl, (refl, tt));
}

-- A minute after the token was issued it is still good.
verify_token-issue_token_example :
    verify_token toy "k" (issue_token toy "k" 60 someone 5000) 65000 ≡ returns (some someone)
unfolding text_dec Bool-cases
verify_token-issue_token_example =
    verify_token-issue_token toy "k" 60 someone 5000 whole-IsBase64 whole-IsBase64 padded-IsBase64
      refl refl refl 65000

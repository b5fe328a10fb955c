-- ===== src/Router/Laws.antt =====
-- src/http/router.ts: a path that is built from a pattern is matched by it, with the values back.
use opencode_master.Base.{
  ℕ, String, Option, some, List, [], ◌∷◌, ◌++◌, ◌≡◌, refl, arith, map, length, All,
}
use opencode_master.Router.{Route, match, matched, mismatch, set_param, route, routed, match_route}

-- A part of a pattern: a text, or a named parameter with the part of the path that stands for it and
-- its decoded value.
pub data Filled : Type 0 where
  literal : String → Filled
  value : String → String → String → Filled

abbrev segment : Filled → String
segment (literal s) = s
segment (value n p v) = "*"

abbrev pub part : Filled → String
part (literal s) = s
part (value n p v) = p

abbrev names_in : List Filled → List String
names_in [] = []
names_in (literal s ∷ fs) = names_in fs
names_in (value n p v ∷ fs) = n ∷ names_in fs

abbrev values_in : List Filled → List (String × String)
values_in [] = []
values_in (literal s ∷ fs) = values_in fs
values_in (value n p v ∷ fs) = (n, v) ∷ values_in fs

module _ (decode : String → Option String) where
  -- A literal is not the mark of a parameter, and a part decodes to its value.
  abbrev IsFilled : Filled → Type 0
  IsFilled (literal s) = s ≡ "*" → ⊥
  IsFilled (value n p v) = decode p ≡ some v

  -- The names are different, and none of them is set already.
  abbrev set_all : List (String × String) → List (String × String) → List (String × String)
  set_all params [] = params
  set_all params ((n, v) ∷ vs) = set_all (set_param n v params) vs

  match-filled :
      (fs : List Filled) (params : List (String × String))
      → All IsFilled fs
      → match decode (map segment fs) (names_in fs) (map part fs) params
        ≡ matched (set_all params (values_in fs))
  unfolding match
  match-filled [] params _ = refl
  match-filled (literal s ∷ fs) params (h, a) = ground (arith, match-filled fs params a)
  match-filled (value n p v ∷ fs) params (h, a) =
      ground (arith, match-filled fs (set_param n v params) a)

  same-length : (fs : List Filled) → length (map segment fs) ≡ length (map part fs)
  same-length [] = refl
  same-length (f ∷ fs) = ground (arith, same-length fs)

  -- A request whose path is made from the pattern of a route, by writing a part in the place of each
  -- parameter, takes this route with the decoded parts as its parameters, where no route that was
  -- added before matches it or fails on it, and no literal of the pattern is `*`.
  pub route-filled :
      (before after : List Route) (method : String) (handler : ℕ) (fs : List Filled)
      → All IsFilled fs
      → All (λ r. match_route decode method (map part fs) r ≡ mismatch) before
      → route decode
          (before
            ++ record {
              method = method;
              segments = map segment fs;
              names = names_in fs;
              handler = handler;
            }
              ∷ after)
          method
          (map part fs)
        ≡ routed handler (set_all [] (values_in fs))
  unfolding route
  route-filled [] after method handler fs filled _ =
      ground (arith, match-filled fs [] filled, same-length fs)
  route-filled (r ∷ before) after method handler fs filled (other, others) =
      ground (arith, other, route-filled before after method handler fs filled others)

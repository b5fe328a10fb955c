-- ===== src/Router.antt =====
-- src/http/router.ts: the routes, in the order in which they were added, and the one that a request
-- takes. A handler is named by a number; `decodeURIComponent` is a parameter, with `none` where it
-- throws.
pub mod Laws
mod Tests
use opencode_master.Base.{
  ℕ, String, Option, none, some, Bool, not, List, [], ◌∷◌, ◌++◌, if◌then◌else◌, ◌==◌, ◌&&◌, split,
  starts_with, select, map, length, eqb,
}

pub record Route : Type 0 where
  pub method : String
  pub segments : List String
  pub names : List String
  pub handler : ℕ

-- `filter(Boolean)`.
abbrev pub parts_of : String → List String
parts_of path = select (λ part. not (part == "")) (split b'/' path)

abbrev is_param : String → Bool
is_param part = starts_with ":" part

-- `slice(1)`.
abbrev after_first : String → String
after_first String.[] = ""
after_first (String.◌∷◌ c s) = s

abbrev segment_of : String → String
segment_of part = if is_param part then "*" else part

abbrev route_of : String → String → ℕ → Route
route_of method path handler = record {
  method = method;
  segments = map segment_of (parts_of path);
  names = map after_first (select is_param (parts_of path));
  handler = handler;
}

unfoldable pub add : List Route → String → String → ℕ → List Route
add routes method path handler = routes ++ route_of method path handler ∷ []

-- `params[name] = value`.
abbrev set_param : String → String → List (String × String) → List (String × String)
set_param k v [] = (k, v) ∷ []
set_param k v ((j, w) ∷ ps) = if j == k then (k, v) ∷ ps else (j, w) ∷ set_param k v ps

-- What matching a request may end with: a mismatch, an error of `decodeURIComponent`, or parameters.
pub data Match : Type 0 where
  mismatch malformed : Match
  matched : List (String × String) → Match

-- `names[paramIndex]`; a name for each parameter is there by `add`.
abbrev first_name : List String → String
first_name [] = "undefined"
first_name (n ∷ _) = n

abbrev other_names : List String → List String
other_names [] = []
other_names (_ ∷ names) = names

module _ (decode : String → Option String) where
  -- The loop over the segments.
  unfoldable pub match : List String → List String → List String → List (String × String) → Match
  match [] names parts params = matched params
  match (s ∷ segments) names [] params = mismatch
  match (s ∷ segments) names (p ∷ parts) params =
      let rest = match segments names parts params in
      if s == "*"
      then (elim (decode p) [
        | none ↦ malformed
        | some v ↦ match segments (other_names names) parts (set_param (first_name names) v params)
      ])
      else if s == p
      then rest
      else mismatch

  abbrev match_route : String → List String → Route → Match
  match_route method parts r =
      if r.method == method && eqb (length r.segments) (length parts)
      then match r.segments r.names parts []
      else mismatch

  -- The answer of `route`: none, an error, or the handler with the parameters.
  pub data Routed : Type 0 where
    unrouted bad_path : Routed
    routed : ℕ → List (String × String) → Routed

  unfoldable pub route : List Route → String → List String → Routed
  route [] method parts = unrouted
  route (r ∷ routes) method parts =
      let rest = route routes method parts in
      elim (match_route method parts r) [
        | mismatch ↦ rest
        | malformed ↦ bad_path
        | matched params ↦ routed r.handler params
      ]

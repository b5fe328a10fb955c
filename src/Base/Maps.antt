-- ===== src/Base/Maps.antt =====
-- A map from texts, as the list of its entries.
use mathlib.Core.Path.{◌≡◌, refl}
use mathlib.Core.List.{List, [], ◌∷◌}
use mathlib.Core.Option.{Option, none, some}
use mathlib.Core.Bool.{false}
use Prim.Native.String.{String}
use native.Mathlib.Omega.{arith}
use opencode_master.Base.Tests.{if◌then◌else◌, ◌==◌}

module _ {A : Type 0} where
  abbrev pub get_entry : List (String × A) → String → Option A
  get_entry [] k = none
  get_entry ((j, a) ∷ entries) k = if j == k then some a else get_entry entries k

  abbrev pub set_entry : List (String × A) → String → A → List (String × A)
  set_entry [] k a = (k, a) ∷ []
  set_entry ((j, b) ∷ entries) k a =
      if j == k then (k, a) ∷ entries else (j, b) ∷ set_entry entries k a

  abbrev pub delete_entry : List (String × A) → String → List (String × A)
  delete_entry [] k = []
  delete_entry ((j, b) ∷ entries) k =
      let rest = delete_entry entries k in if j == k then rest else (j, b) ∷ rest

  pub get-set_entry :
      (entries : List (String × A)) (k j : String) (a : A)
      → get_entry (set_entry entries k a) j ≡ (if k == j then some a else get_entry entries j)
  get-set_entry [] k j a = refl
  get-set_entry ((i, b) ∷ entries) k j a = ground (arith, get-set_entry entries k j a)

  pub get-delete_entry :
      (entries : List (String × A)) (k j : String)
      → get_entry (delete_entry entries k) j ≡ (if k == j then none else get_entry entries j)
  get-delete_entry [] k j = ground arith
  get-delete_entry ((i, b) ∷ entries) k j = ground (arith, get-delete_entry entries k j)

  pub get-set_same :
      (entries : List (String × A)) (k : String) (a : A)
      → get_entry (set_entry entries k a) k ≡ some a
  get-set_same entries k a = ground (arith, get-set_entry entries k k a)

  pub get-set_other :
      (entries : List (String × A)) (k j : String) (a : A)
      → (k == j) ≡ false
      → get_entry (set_entry entries k a) j ≡ get_entry entries j
  get-set_other entries k j a h = ground (arith, h, get-set_entry entries k j a)

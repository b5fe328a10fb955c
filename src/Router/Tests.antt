-- ===== src/Router/Tests.antt =====
-- src/http/router.ts, run on two routes.
use opencode_master.Base.{some, [], ◌∷◌, ◌≡◌, refl, text_ne, text_dec}
use opencode_master.Router.{route, routed}
use opencode_master.Router.Laws.{route-filled, literal, value}

route-filled_example :
    route some
      (record { method = "GET"; segments = "sessions" ∷ []; names = []; handler = 0 }
        ∷ record {
          method = "GET";
          segments = "sessions" ∷ "*" ∷ [];
          names = "id" ∷ [];
          handler = 1;
        }
        ∷ [])
      "GET"
      ("sessions" ∷ "s" ∷ [])
    ≡ routed 1 (("id", "s") ∷ [])
unfolding text_dec
route-filled_example =
    route-filled some
      (record { method = "GET"; segments = "sessions" ∷ []; names = []; handler = 0 } ∷ []) [] "GET"
      1 (literal "sessions" ∷ value "id" "s" "s" ∷ []) (text_ne "sessions" "*" refl, (refl, tt))
      (refl, tt)

-- ===== src/Worker/Proxy/Controls.antt =====
-- src/http/server.ts and src/worker/proxy-server.ts: the controls that the master sends are taken.
use opencode_master.Base.{
  ℕ, String, Option, none, some, true, false, [], ◌∷◌, ◌≡◌, ◌==◌, refl, ap, ◌∙◌, arith, split,
  split_at, HasNo, if◌then◌else◌, not, ◌&&◌, text_dec, Bool-cases,
}
use opencode_master.Types.{Json, Fields}
use opencode_master.Journal.History.{find_field}
use opencode_master.Identity.Tokens.{set_field}
use opencode_master.Http.Bodies.{control_path, control_body}
use opencode_master.Worker.Proxy.{
  ProxyRequest, controls, fetch, control, matched_parts, control_with, without_field, is_control,
  is_object, text_at, lease_at,
}
use opencode_master.Worker.Proxy.Requests.{split-action, acted_at}

find_field-set_same :
    (k : String) (v : Json) (fields : Fields) → find_field k (set_field k v fields) ≡ some v
find_field-set_same k v Fields.end = ground arith
find_field-set_same k v (Fields.field j w fields) = ground (arith, find_field-set_same k v fields)

find_field-set_other :
    (j k : String) (v : Json) (fields : Fields)
    → (k == j) ≡ false
    → find_field j (set_field k v fields) ≡ find_field j fields
find_field-set_other j k v Fields.end h = ground (arith, h)
find_field-set_other j k v (Fields.field i w fields) h =
    ground (arith, h, find_field-set_other j k v fields h)

without_field-absent :
    (k : String) (fields : Fields) → find_field k fields ≡ none → without_field k fields ≡ fields
unfolding without_field
without_field-absent k Fields.end h = refl
without_field-absent k (Fields.field j w fields) h =
    ground (arith, h, without_field-absent k fields)

without_field-set_same :
    (k : String) (v : Json) (fields : Fields)
    → find_field k fields ≡ none
    → without_field k (set_field k v fields) ≡ fields
unfolding without_field
without_field-set_same k v Fields.end h = ground arith
without_field-set_same k v (Fields.field j w fields) h =
    ground (arith, h, without_field-set_same k v fields)

without_field-set_other :
    (j k : String) (v : Json) (fields : Fields)
    → (k == j) ≡ false
    → without_field j (set_field k v fields) ≡ set_field k v (without_field j fields)
unfolding without_field
without_field-set_other j k v Fields.end h = ground (arith, h)
without_field-set_other j k v (Fields.field i w fields) h =
    ground (arith, h, without_field-set_other j k v fields h)

module _ (body : Fields) (workspace_id turn_id : String) (lease_epoch : ℕ) where
  abbrev pub sent : Fields
  sent =
      set_field "leaseEpoch" (Json.num lease_epoch) (
        set_field "turnID" (Json.str turn_id)
          (set_field "workspaceID" (Json.str workspace_id) body))

  find_field-sent :
      (k : String)
      → ("leaseEpoch" == k) ≡ false
      → ("turnID" == k) ≡ false
      → ("workspaceID" == k) ≡ false
      → find_field k sent ≡ find_field k body
  find_field-sent k a b c =
      find_field-set_other k "leaseEpoch" (Json.num lease_epoch) _ a
      ∙ find_field-set_other k "turnID" (Json.str turn_id) _ b
      ∙ find_field-set_other k "workspaceID" (Json.str workspace_id) body c

  lease_at-sent : (turn_id == "") ≡ false → lease_at sent ≡ some (turn_id, lease_epoch)
  unfolding text_dec Bool-cases
  lease_at-sent named = ground (
    arith,
    named,
    find_field-set_same "leaseEpoch" (Json.num lease_epoch) (
        set_field "turnID" (Json.str turn_id)
          (set_field "workspaceID" (Json.str workspace_id) body)),
    find_field-set_other "turnID" "leaseEpoch" (Json.num lease_epoch)
          (set_field "turnID" (Json.str turn_id)
            (set_field "workspaceID" (Json.str workspace_id) body))
          refl
        ∙ find_field-set_same "turnID" (Json.str turn_id)
            (set_field "workspaceID" (Json.str workspace_id) body),
  )

  workspace-sent : text_at "workspaceID" sent ≡ some workspace_id
  unfolding text_dec Bool-cases
  workspace-sent = ground (
    arith,
    find_field-set_other "workspaceID" "leaseEpoch" (Json.num lease_epoch)
          (set_field "turnID" (Json.str turn_id)
            (set_field "workspaceID" (Json.str workspace_id) body))
          refl
        ∙ find_field-set_other "workspaceID" "turnID" (Json.str turn_id)
            (set_field "workspaceID" (Json.str workspace_id) body) refl
        ∙ find_field-set_same "workspaceID" (Json.str workspace_id) body,
  )

  module _ (no_workspace : find_field "workspaceID" body ≡ none)
      (no_turn : find_field "turnID" body ≡ none)
      (no_epoch : find_field "leaseEpoch" body ≡ none) where
    rest-sent :
        without_field "leaseEpoch" (without_field "turnID" (without_field "workspaceID" sent))
        ≡ body
    unfolding text_dec Bool-cases
    rest-sent =
        ap (λ f. without_field "leaseEpoch" (without_field "turnID" f))
          (without_field-set_other "workspaceID" "leaseEpoch" (Json.num lease_epoch)
              (set_field "turnID" (Json.str turn_id)
                (set_field "workspaceID" (Json.str workspace_id) body))
              refl
            ∙ ap (set_field "leaseEpoch" (Json.num lease_epoch)) (
                without_field-set_other "workspaceID" "turnID" (Json.str turn_id)
                  (set_field "workspaceID" (Json.str workspace_id) body) refl
                ∙ ap (set_field "turnID" (Json.str turn_id)) (
                    without_field-set_same "workspaceID" (Json.str workspace_id) body
                      no_workspace)))
        ∙ ap (without_field "leaseEpoch") (
            without_field-set_other "turnID" "leaseEpoch" (Json.num lease_epoch)
              (set_field "turnID" (Json.str turn_id) body) refl
            ∙ ap (set_field "leaseEpoch" (Json.num lease_epoch))
                (without_field-set_same "turnID" (Json.str turn_id) body no_turn))
        ∙ without_field-set_same "leaseEpoch" (Json.num lease_epoch) body no_epoch

    -- The proxy of a worker takes the request that the master sends for a control: what it passes on is
    -- the user's body, with the session, the workspace, the turn and its epoch as the master has them.
    -- The request is authorized, the session's id is not empty and has no slash, the turn's id is not
    -- empty, the body's type is one of the three controls and its data an object, and it has none of
    -- the three fields that the master adds.
    pub fetch-control :
        (id : String) (last : Option ℕ)
        → HasNo b'/' id
        → (id == "") ≡ false
        → (turn_id == "") ≡ false
        → is_control (text_at "type" body) ≡ true
        → is_object (find_field "data" body) ≡ true
        → fetch (record {
          is_authorized = true;
          method = "POST";
          pathname = control_path id;
          last_event_id = last;
          body = some (control_body (Json.obj body) workspace_id turn_id lease_epoch);
        })
          ≡ controls (record {
            session_id = id;
            workspace_id = some workspace_id;
            turn_id = turn_id;
            lease_epoch = lease_epoch;
            request = body;
          })
    unfolding fetch control split split_at text_dec Bool-cases
    fetch-control id last h filled named typed held =
        let request : ProxyRequest = record {
          is_authorized = true;
          method = "POST";
          pathname = control_path id;
          last_event_id = last;
          body = some (Json.obj sent);
        } in
        ap (acted_at request)
          (ap matched_parts (split-action id "/control" ("control" ∷ []) h refl))
        ∙ ap (λ b. acted_at request (if not b && true then some (id, "control") else none)) filled
        ∙ ap (control_with id sent) (lease_at-sent named)
        ∙ ground (
          arith,
          find_field-sent "type" refl refl refl,
          find_field-sent "data" refl refl refl,
          workspace-sent,
          rest-sent,
          typed,
          held,
        )

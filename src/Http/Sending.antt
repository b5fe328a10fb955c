-- ===== src/Http/Sending.antt =====
-- src/http/server.ts: what a prompt does to the turns, and what it answers.
use opencode_master.Base.{
  is_success, ◌∙◌, template, decimal, if◌then◌else◌, String, some, true, false, ◌==◌, ◌≡◌, arith,
  find?, trim, or_else, ◌&&◌, not, none, has_key, ◌∷◌, [], refl, ℕ,
}
use opencode_master.Types.{AuthContext, SessionRow, WorkerRow, TurnRow, Json, returns}
use opencode_master.Config.{Config}
use opencode_master.Registry.{is_ok}
use opencode_master.Sessions
use opencode_master.Sessions.Lifecycle.{worker-stays}
use opencode_master.Turns.{
  leased_at, failed_with, turn_id, new_turn, is_active_of, key_of, is_keyed_of, to_row, TurnInput,
  new_turn,
}
use opencode_master.Turns.Retries.{found-again}
use opencode_master.Http.{Master}
use opencode_master.Turns.Created.{get-last, with_turn, lease-last, fail-last, create_or_get-new}
use opencode_master.Http.Directory.{has_gateway}
use opencode_master.Http.Access.{Outside, is_user, owned_session}
use opencode_master.Journal.History.{history}
use opencode_master.Http.Bodies.{prompt_path, prompt_body}
use opencode_master.Http.Prompts.{
  dispatch, proxy, worker_failed, after_send, PromptBody, PromptFresh, prompt, turn_input,
  admitted_answer,
}

-- The caller may use the session: an administrator, or its user.
abbrev MayUse : AuthContext → SessionRow → Type 0
MayUse auth row = (is_user auth.role && not (row.user_id == auth.sub)) ≡ false

module _ (outside : Outside) (cfg : Config) (m : Master) (id : String) (auth : AuthContext)
    (body : PromptBody) (fresh : PromptFresh) (row : SessionRow) (worker : WorkerRow)
    (mine : MayUse auth row) (found : Sessions.get m.db id ≡ some (row, some worker))
    (ok : is_ok worker.status ≡ true) (named : (trim (or_else body.content "") == "") ≡ false) where
  abbrev input : TurnInput
  input = turn_input id auth.sub (or_else body.content "") body.idempotency_key worker row

  -- A prompt whose key has a turn of the session already is answered 202 with this turn, and the
  -- master is as it was: no turn is created or leased and no run of the gateway starts. The session is
  -- stored and the caller's, or the caller is an administrator, the status of its worker is `ok`, and
  -- the content is not blank.
  prompt-again :
      (turn : TurnRow)
      → find? (is_keyed_of id (key_of input fresh.turn)) m.db.turns ≡ some turn
      → prompt outside cfg id auth (some body) fresh m
        ≡ (m, returns (admitted_answer outside cfg id (some (to_row turn))))
  unfolding prompt owned_session
  prompt-again turn known = ground (
    arith,
    found,
    ok,
    named,
    mine,
    known,
    worker-stays m.db cfg id fresh.placed_at row worker found ok,
    found-again m.db input fresh.turn turn known,
  )

  abbrev created : TurnRow
  created = new_turn input fresh.turn (key_of input fresh.turn)

  prompt-dispatch :
      find? (is_keyed_of id (key_of input fresh.turn)) m.db.turns ≡ none
      → find? (is_active_of id) m.db.turns ≡ none
      → find? (has_key turn_id fresh.turn.id) m.db.turns ≡ none
      → prompt outside cfg id auth (some body) fresh m
        ≡ dispatch outside cfg id auth
            (or_else body.content "")
            (history m.db id)
            worker
            row
            (to_row created)
            fresh
            (record m { db = with_turn m.db created })
  unfolding prompt owned_session Sessions.get
  prompt-dispatch keyed free new = ground (
    arith,
    found,
    ok,
    named,
    mine,
    worker-stays m.db cfg id fresh.placed_at row worker found ok,
    create_or_get-new m.db input fresh.turn keyed free new,
  )

  abbrev leased : TurnRow
  leased = leased_at fresh.leased_at created

  -- What is sent: the content, the workspace, the turn, its epoch and the history before the prompt.
  abbrev sent_body : Json
  sent_body =
      prompt_body (or_else body.content "") (or_else row.workspace_id id) fresh.turn.id
        row.lease_epoch (history m.db id)

  dispatch-after_send :
      has_gateway cfg ≡ false
      → find? (has_key turn_id fresh.turn.id) m.db.turns ≡ none
      → dispatch outside cfg id auth
          (or_else body.content "")
          (history m.db id)
          worker
          row
          (to_row created)
          fresh
          (record m { db = with_turn m.db created })
        ≡ after_send outside cfg fresh.turn.id worker.id row.lease_epoch fresh.failed_at
            (proxy outside cfg worker.address (prompt_path id) sent_body)
            (admitted_answer outside cfg id)
            (record m { db = with_turn m.db leased })
  dispatch-after_send native new =
      ground (arith, native, lease-last m.db created fresh.leased_at new refl)

  abbrev refused_with : ℕ → String
  refused_with code = template ("worker returned " ∷ decimal code ∷ [])

  after_send-leased :
      (code : ℕ)
      → find? (has_key turn_id fresh.turn.id) m.db.turns ≡ none
      → after_send outside cfg fresh.turn.id worker.id row.lease_epoch fresh.failed_at code
          (admitted_answer outside cfg id)
          (record m { db = with_turn m.db leased })
        ≡ (if is_success code
            then (
              record m { db = with_turn m.db leased },
              returns (admitted_answer outside cfg id (some leased)),
            )
            else (
              record m {
                db = with_turn m.db (failed_with (refused_with code) fresh.failed_at leased);
              },
              returns (worker_failed code),
            ))
  after_send-leased code new = ground (
    arith,
    get-last m.db leased new,
    fail-last m.db leased (refused_with code) fresh.failed_at new refl,
  )

  -- Without a gateway, a prompt of a session that has no active turn, with a key that has no turn yet,
  -- sends one new turn to the session's worker, with the content, the workspace, the epoch and the
  -- history before it. If the worker answers with success, the turn is leased, and the answer is 202; if it cannot be reached, or answers otherwise, the turn is failed, with the
  -- status in its message, and the answer is 502 `WORKER_PROMPT_FAILED`. Nothing else changes. The
  -- session is stored and the caller's, or the caller is an administrator, the status of its worker
  -- is `ok`, the content is not blank, and the id of the new turn is unused.
  pub prompt-sends :
      has_gateway cfg ≡ false
      → find? (is_keyed_of id (key_of input fresh.turn)) m.db.turns ≡ none
      → find? (is_active_of id) m.db.turns ≡ none
      → find? (has_key turn_id fresh.turn.id) m.db.turns ≡ none
      → let code = proxy outside cfg worker.address (prompt_path id) sent_body in
        prompt outside cfg id auth (some body) fresh m ≡ (
          if is_success code
          then (
            record m { db = with_turn m.db leased },
            returns (admitted_answer outside cfg id (some leased)),
          )
          else (
            record m {
              db = with_turn m.db (
                  failed_with
                    (template ("worker returned " ∷ decimal code ∷ []))
                    fresh.failed_at
                    leased);
            },
            returns (worker_failed code),
          ))
  prompt-sends native keyed free new =
      prompt-dispatch keyed free new
      ∙ dispatch-after_send native new
      ∙ after_send-leased (proxy outside cfg worker.address (prompt_path id) sent_body) new

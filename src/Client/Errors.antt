-- ===== src/Client/Errors.antt =====
-- src/client.ts and src/http/helpers.ts: the client throws the error that the master answered.
use opencode_master.Base.{
  ℕ, String, Option, some, ap, sym, ◌∙◌, ◌≡◌, refl, arith, text_dec, Bool-cases, is_success, false,
}
use opencode_master.Types.{
  Error, quota_exceeded, no_worker_available, session_not_found, unknown_worker, active_turn,
  stale_turn_lease, syntax_error, internal,
}
use opencode_master.Http.{map_error, api_error}
use opencode_master.Http.Sse.{failure_json}
use opencode_master.Client.{
  MasterClientOptions, Call, Sent, Received, request, sent_of, refused, read_answer,
}

abbrev pub failed : ℕ → String → String → String → Received
failed status text code message = record {
  status = status;
  status_text = text;
  content = some (failure_json code message);
}

read_answer-failed :
    (status : ℕ) (text code message : String)
    → is_success status ≡ false
    → read_answer (failed status text code message)
      ≡ refused (record { status = status; code = code; message = message })
unfolding read_answer failure_json text_dec Bool-cases
read_answer-failed status text code message h = ground (arith, h)

same_status :
    (given status : ℕ) (c d code message : String)
    → api_error given c d ≡ api_error status code message
    → is_success given ≡ false
    → is_success status ≡ false
same_status given status c d code message e h = ap is_success (sym (ap (λ r. r.status) e)) ∙ h

map_error-failed :
    (e : Error) (status : ℕ) (code message : String)
    → map_error e ≡ api_error status code message
    → is_success status ≡ false
unfolding map_error
map_error-failed (quota_exceeded user n) s c m h = same_status 429 s _ _ c m h refl
map_error-failed no_worker_available s c m h = same_status 503 s _ _ c m h refl
map_error-failed (session_not_found id) s c m h = same_status 404 s _ _ c m h refl
map_error-failed (unknown_worker id) s c m h = same_status 404 s _ _ c m h refl
map_error-failed (active_turn id) s c m h = same_status 409 s _ _ c m h refl
map_error-failed (stale_turn_lease id) s c m h = same_status 409 s _ _ c m h refl
map_error-failed syntax_error s c m h = same_status 400 s _ _ c m h refl
map_error-failed (internal x) s c m h = same_status 500 s _ _ c m h refl

module _ (fetch : Sent → Option Received) (options : MasterClientOptions) where
  -- If the master answers a request of the client with an error of its services, the client throws
  -- that error, with the status, the code and the message that the master gave it.
  pub request-map_error :
      (call : Call) (e : Error) (status : ℕ) (code message text : String)
      → map_error e ≡ api_error status code message
      → fetch (sent_of options call) ≡ some (failed status text code message)
      → request fetch options call
        ≡ refused (record { status = status; code = code; message = message })
  unfolding request
  request-map_error call e status code message text h k = ground (
    arith,
    k,
    read_answer-failed status text code message (map_error-failed e status code message h),
  )

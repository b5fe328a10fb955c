-- ===== src/Sessions/Tests.antt =====
-- src/services/session-service.ts, run on a session that is moved.
use opencode_master.Base.{some, ◌≡◌, refl, text_dec, Bool-cases}
use opencode_master.Types.{SessionRow}
use opencode_master.Sessions.{worker_for_prompt, get_row}
use opencode_master.Sessions.Epochs.{Supersedes, Reach-Survives}
use opencode_master.Sessions.Samples.{sample-IsSound, after_loss, loss}
use opencode_master.Samples.{sample_config, open_session}

Reach-Survives_example :
    (later : SessionRow) × (get_row (worker_for_prompt after_loss sample_config "s" 101).0 "s"
      ≡ some later)
    × Supersedes later open_session
unfolding get_row text_dec Bool-cases
Reach-Survives_example = Reach-Survives "s" open_session sample-IsSound loss refl

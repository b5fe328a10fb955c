-- ===== src/Sessions/Samples.antt =====
-- A history of the sample sessions.
use opencode_master.Base.{refl, text_ne, true-ne-false}
use opencode_master.Database.{Database}
use opencode_master.Sessions.{rehome_worker_sessions, worker_for_prompt}
use opencode_master.Sessions.Epochs.{IsSound, Reach, here, next, rehomes, prompts}
use opencode_master.Samples.{sample, sample_config}

pub sample-IsSound : IsSound sample
sample-IsSound = record {
  keyed = ((text_ne "e" "s" refl, tt), (tt, tt));
  released = (λ h. absurd (true-ne-false h refl), (λ h. refl, tt));
}

abbrev pub after_loss : Database
after_loss = (rehome_worker_sessions sample sample_config "b" 100).0

-- The sweep finds worker `b` lost, its sessions move, and a prompt comes for one of them.
pub loss : Reach sample (worker_for_prompt after_loss sample_config "s" 101).0
loss = next (next here (rehomes sample_config "b" 100)) (prompts sample_config "s" 101)

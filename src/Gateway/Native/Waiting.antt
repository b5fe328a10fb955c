-- ===== src/Gateway/Native/Waiting.antt =====
-- src/services/opencode-gateway.ts: the loop of `prompt` and `resume` ends.
use Prim.Native.Nat.{ℕ, zero, suc}
use opencode_master.Base.{
  subst, String, Bool, true, false, List, ◌≡◌, ◌+◌, ◌*◌, ◌≤◌, ◌<◌, arith, ltb, refl,
}
use opencode_master.Gateway.Native.{
  or_next, Poll, Waited, waiting, reply_in, poll_once, wait, Context, context_failed, context_read,
}

abbrev pub is_waiting : Waited → Bool
is_waiting waiting = true
is_waiting _ = false

or_next-first :
    (first next : Waited) → is_waiting first ≡ false → is_waiting (or_next first next) ≡ false
or_next-first first next h = ground (arith, h)

or_next-next :
    (first next : Waited) → is_waiting next ≡ false → is_waiting (or_next first next) ≡ false
or_next-next first next h = ground (arith, h)

module _ (deadline : ℕ) (known : List String) where
  reply_in-late :
      (poll : Poll) (context : Context)
      → ltb deadline poll.now ≡ true
      → is_waiting (reply_in deadline known poll context) ≡ false
  reply_in-late poll (context_failed message) late = refl
  reply_in-late poll (context_read messages) late = ground (arith, late)

  poll_once-late :
      (poll : Poll)
      → ltb deadline poll.now ≡ true
      → is_waiting (poll_once deadline known poll) ≡ false
  unfolding poll_once
  poll_once-late poll late = ground (arith, reply_in-late poll poll.context late)

  wait-late :
      (polls : ℕ → Poll) (j rounds k : ℕ)
      → j < rounds
      → ltb deadline (polls (k + j)).now ≡ true
      → is_waiting (wait rounds deadline known polls k) ≡ false
  unfolding wait
  wait-late polls j zero k less late = absurd (omega arith)
  wait-late polls zero (suc rounds) k less late =
      or_next-first (poll_once deadline known (polls k)) (wait rounds deadline known polls (suc k))
        (poll_once-late (polls k)
          (subst (λ n. ltb deadline (polls n).now ≡ true) (omega arith) late))
  wait-late polls (suc j) (suc rounds) k less late =
      or_next-next (poll_once deadline known (polls k)) (wait rounds deadline known polls (suc k)) (
        wait-late polls j rounds (suc k) (omega arith)
          (subst (λ n. ltb deadline (polls n).now ≡ true) (omega arith) late))

clock :
    (polls : ℕ → Poll) (start : ℕ)
    → start ≤ (polls 0).now
    → ((k : ℕ) → (polls k).now + 1000 ≤ (polls (suc k)).now)
    → (k : ℕ) → start + 1000 * k ≤ (polls k).now
clock polls start first later zero = omega arith
clock polls start first later (suc k) = omega (arith, clock polls start first later k, later k)

-- The loop that waits for a reply ends within 602 rounds, whatever the native opencode answers, where
-- the clock goes on by a second from a round to the next, and the deadline is 600 seconds after the
-- start.
pub wait-ends :
    (known : List String) (polls : ℕ → Poll) (start rounds : ℕ)
    → start ≤ (polls 0).now
    → ((k : ℕ) → (polls k).now + 1000 ≤ (polls (suc k)).now)
    → 602 ≤ rounds
    → is_waiting (wait rounds (start + 600000) known polls 0) ≡ false
wait-ends known polls start rounds first later enough =
    wait-late (start + 600000) known polls 601 rounds 0 (omega arith)
      (ground (arith, clock polls start first later 601))

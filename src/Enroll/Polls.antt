-- ===== src/Enroll/Polls.antt =====
-- The loop that waits for the approval ends, and how.
use clave.Prelude.{
  ℕ, zero, suc, ◌+◌, ◌≤◌, ◌<◌, ◌≡◌, refl, ◌∙◌, inl, inr, arith, Option, some, Bytes, max, leb,
  Result, ok, err, Bool-cases, if◌then◌else◌,
}
use clave.Core.Policy.{UnixTime}
use clave.Proto.External.{Ed25519, Postcard}
use clave.Proto.Command.{Envelope}
use clave.Volume.Types.{Ciphers}
use clave.Volume.Keys.{X25519}
use clave.Gateway.Provider.{DeviceAuth}
use clave.Enroll.Client.{
  PollStatus, EnrollClientError, timed_out, EnrollmentConfig, EnrollmentRecord, EnrollmentTransport,
  poll_loop, enough_polls, enroll, enroll_with,
}

-- The polls that may be made: `max_polls`, but one at least.
abbrev pub allowed_polls : ℕ → ℕ
allowed_polls max_polls = max 1 max_polls

-- The polls from the `a`-th up to the `b`-th, which is not included, are answered with pending.
abbrev pub IsPendingFrom : (ℕ → Result EnrollClientError PollStatus) → ℕ → ℕ → Type 0
IsPendingFrom answers a b = (k : ℕ) → a ≤ k → k < b → answers k ≡ ok PollStatus.pending

-- How the loop ends, from its poll `from` on, if `allowed` polls may be made.
pub data Ended (answers : ℕ → Result EnrollClientError PollStatus) (allowed from : ℕ)
    (r : Option (Result EnrollClientError (Unit {0}))) : Type 0 where
  approved_at :
      (n : ℕ)
      → from ≤ n
      → n < allowed
      → IsPendingFrom answers from n
      → answers n ≡ ok PollStatus.approved
      → r ≡ some (ok tt)
      → Ended answers allowed from r
  failed_at :
      (n : ℕ) (e : EnrollClientError)
      → from ≤ n
      → n < allowed
      → IsPendingFrom answers from n
      → answers n ≡ err e
      → r ≡ some (err e)
      → Ended answers allowed from r
  gave_up :
      IsPendingFrom answers from allowed → r ≡ some (err timed_out) → Ended answers allowed from r

module _ (answers : ℕ → Result EnrollClientError PollStatus) (max_polls : ℕ) where
  extend :
      (polls b : ℕ)
      → answers polls ≡ ok PollStatus.pending
      → IsPendingFrom answers (polls + 1) b
      → IsPendingFrom answers polls b
  extend polls b now later k low high = elim (Bool-cases (leb k polls)) [
    | inl here ↦ let same : k ≡ polls = ground arith in rw same now
    | inr after ↦ later k (ground arith) high
  ]

  -- A poll that is answered with pending, and the rest of the loop after it.
  later-Ended :
      (polls : ℕ) (r : Option (Result EnrollClientError (Unit {0})))
      → answers polls ≡ ok PollStatus.pending
      → Ended answers (allowed_polls max_polls) (polls + 1) r
      → Ended answers (allowed_polls max_polls) polls r
  later-Ended polls r now (approved_at n low high waits e out) =
      approved_at n (omega arith) high (extend polls n now waits) e out
  later-Ended polls r now (failed_at n x low high waits e out) =
      failed_at n x (omega arith) high (extend polls n now waits) e out
  later-Ended polls r now (gave_up waits out) =
      gave_up (extend polls (allowed_polls max_polls) now waits) out

  poll_loop-pending :
      (fuel polls : ℕ)
      → answers polls ≡ ok PollStatus.pending
      → poll_loop answers max_polls (suc fuel) polls ≡ (
          if leb max_polls (polls + 1)
          then some (err timed_out)
          else poll_loop answers max_polls fuel (polls + 1))
  unfolding poll_loop
  poll_loop-pending fuel polls h = rw (h, poll_loop) refl

  poll_loop-Ended :
      (fuel polls : ℕ)
      → allowed_polls max_polls ≤ fuel + polls
      → polls < allowed_polls max_polls
      → Ended answers (allowed_polls max_polls) polls (poll_loop answers max_polls fuel polls)
  unfolding poll_loop
  poll_loop-Ended zero polls enough room = absurd (omega arith)
  poll_loop-Ended (suc fuel) polls enough room =
      by_answer (answers polls) refl λ more. poll_loop-Ended fuel (polls + 1) (omega arith) more
    where
      by_answer :
          (a : Result EnrollClientError PollStatus)
          → answers polls ≡ a
          → (polls + 1 < allowed_polls max_polls
              → Ended answers
                  (allowed_polls max_polls)
                  (polls + 1)
                  (poll_loop answers max_polls fuel (polls + 1)))
          → Ended answers
              (allowed_polls max_polls)
              polls
              (poll_loop answers max_polls (suc fuel) polls)
      by_answer (err e) h rest =
          failed_at polls e (omega arith) room (λ k low high. absurd (omega arith)) h
            (rw (h, poll_loop) refl)
      by_answer (ok PollStatus.approved) h rest =
          approved_at polls (omega arith) room (λ k low high. absurd (omega arith)) h
            (rw (h, poll_loop) refl)
      by_answer (ok PollStatus.pending) h rest = elim (Bool-cases (leb max_polls (polls + 1))) [
        | inl over ↦
            gave_up (λ k low high. let same : k ≡ polls = ground arith in rw same h)
              (poll_loop-pending fuel polls h ∙ rw over refl)
        | inr more ↦
            rw (poll_loop-pending fuel polls h, more) (later-Ended polls _ h (rest (ground arith)))
      ]

  -- The loop always ends within its fuel, after at most `max_polls` polls (or one, if that is 0): it is
  -- approved by the first poll that is not answered with pending, or fails as that poll does, or all
  -- the polls that may be made are answered with pending and it times out.
  pub poll_loop_ends :
      Ended answers
        (allowed_polls max_polls)
        0
        (poll_loop answers max_polls (enough_polls max_polls) 0)
  poll_loop_ends = poll_loop-Ended (enough_polls max_polls) 0 (omega arith) (omega arith)

  poll_loop-some :
      (r : Result EnrollClientError (Unit {0})) × (poll_loop answers max_polls
          (enough_polls max_polls)
          0
        ≡ some r)
  poll_loop-some = by_end poll_loop_ends
    where
      by_end :
          {o : Option (Result EnrollClientError (Unit {0}))}
          → Ended answers (allowed_polls max_polls) 0 o
          → (r : Result EnrollClientError (Unit {0})) × (o ≡ some r)
      by_end (approved_at n low high waits e out) = (ok tt, out)
      by_end (failed_at n x low high waits e out) = (err x, out)
      by_end (gave_up waits out) = (err timed_out, out)

-- Enrolling always comes to a result, whatever the transport answers.
pub enroll-total :
    (c : Ciphers) (x : X25519) (sha256 : Bytes → Bytes) (ed : Ed25519) (codec : Postcard Envelope)
    (t : EnrollmentTransport) (cfg : EnrollmentConfig) (now : UnixTime)
    → (r : Result EnrollClientError EnrollmentRecord) × (enroll c x sha256 ed codec t cfg now
        ≡ some r)
unfolding enroll
enroll-total c x sha256 ed codec t cfg now = by_start (t.start cfg.workspace)
  where
    by_start :
        (a : Result EnrollClientError DeviceAuth)
        → (r : Result EnrollClientError EnrollmentRecord) × (enroll_with c x sha256 ed codec t cfg
              now a
            ≡ some r)
    by_start (err e) = (err e, refl)
    by_start (ok auth) =
        let (r, e) = poll_loop-some (t.poll cfg.workspace auth.device_code) cfg.max_polls in
        rw e (_, refl)

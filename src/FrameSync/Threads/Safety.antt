-- ===== src/FrameSync/Threads/Safety.antt =====
-- No thread waits for what has come, no step goes out of range, and the two never wait for one
-- another.
use pre.FrameSync.{buffer_size}
use pre.FrameSync.Invariant.{IsValid, stored, store-eq-stored, stored-IsValid}
use pre.FrameSync.Pending.{fetch_refines}
use pre.FrameSync.Threads.{
  Phase, outside, waiting, woken, Threads, signal, send, copy, Step, send_enters, send_resumes,
  copy_enters, copy_resumes, producer_woken, consumer_woken, Reach, start, next,
}
use pre.Prelude.{◌==◌, Bool-cases, length, ℕ, ◌≤◌, ◌≡◌, subst, ◌≢◌, inl, inr, Option, some, arith}
use pre.Prelude.Floats.{Floats}

-- No wake-up is lost: a thread waits only while what it waits for has not come.
pub record IsSafe (n : ℕ) (s : Threads) : Type 0 where
  pub valid : IsValid n s.sync
  pub captured_fits : n ≤ length s.captured
  pub algo_in_fits : length s.algo_in ≡ n
  pub producer_waits : s.producer ≡ waiting → s.sync.frame_count ≡ buffer_size
  pub consumer_waits : s.consumer ≡ waiting → s.sync.frame_count ≡ 0

signal-ne-waiting : (p : Phase) → signal p ≢ waiting
signal-ne-waiting outside h = cc
signal-ne-waiting waiting h = cc
signal-ne-waiting woken h = cc

-- From a safe state `DVP_Send` finds nothing out of range, and leaves a safe state.
pub send-IsSafe :
    {n : ℕ} {s : Threads} → IsSafe n s → (t : Threads) × (send n s ≡ some t) × IsSafe n t
unfolding send
send-IsSafe {n} {s} v = elim (Bool-cases s.sync.buffer_full) [
  | inl full ↦ (
    record s { producer = waiting },
    simp full,
    record {
      valid = v.valid;
      captured_fits = v.captured_fits;
      algo_in_fits = v.algo_in_fits;
      producer_waits = λ h. ground (arith, v.valid.full_iff);
      consumer_waits = v.consumer_waits;
    },
  )
  | inr room ↦ (
    record s {
      sync = stored n s.captured s.sync;
      producer = outside;
      consumer = signal s.consumer;
    },
    simp (room, store-eq-stored v.valid s.captured v.captured_fits),
    record {
      valid =
          stored-IsValid v.valid s.captured v.captured_fits
            (ground (arith, v.valid.full_iff, v.valid.count_in));
      captured_fits = v.captured_fits;
      algo_in_fits = v.algo_in_fits;
      producer_waits = λ h. cc;
      consumer_waits = λ h. absurd (signal-ne-waiting s.consumer h);
    },
  )
]

-- From a safe state `SHM_VO_Copy` finds nothing out of range, and leaves a safe state.
pub copy-IsSafe :
    (fl : Floats) {n : ℕ} {s : Threads}
    → IsSafe n s
    → (t : Threads) × (copy fl n s ≡ some t) × IsSafe n t
unfolding copy
copy-IsSafe fl {n} {s} v = elim (Bool-cases (s.sync.frame_count == 0)) [
  | inl empty ↦ (
    record s { consumer = waiting },
    simp empty,
    record {
      valid = v.valid;
      captured_fits = v.captured_fits;
      algo_in_fits = v.algo_in_fits;
      producer_waits = v.producer_waits;
      consumer_waits = λ h. ground arith;
    },
  )
  | inr ready ↦
      let (sync, out, e, valid, took, sized, timed) =
        fetch_refines fl s.current_time s.algo_in v.valid (ground arith) v.algo_in_fits in
      (
        record s { sync = sync; algo_in = out; consumer = outside; producer = signal s.producer },
        simp (ready, e),
        record {
          valid = valid;
          captured_fits = v.captured_fits;
          algo_in_fits = sized;
          producer_waits = λ h. absurd (signal-ne-waiting s.producer h);
          consumer_waits = λ h. cc;
        },
      )
]

some-eq : {A : Type 0} {a b : A} {o : Option A} → o ≡ some a → o ≡ some b → a ≡ b
some-eq p q = cc

-- Every step of either thread, in any order, keeps the state safe.
pub Step-IsSafe : (fl : Floats) {n : ℕ} {s t : Threads} → Step fl n s t → IsSafe n s → IsSafe n t
Step-IsSafe fl {n} {s} (send_enters captured o fits e) v =
    let (t, e', safe) = send-IsSafe {s = record s { captured = captured }} (record {
      valid = v.valid;
      captured_fits = fits;
      algo_in_fits = v.algo_in_fits;
      producer_waits = v.producer_waits;
      consumer_waits = v.consumer_waits;
    }) in
    subst (IsSafe n) (some-eq e' e) safe
Step-IsSafe fl {n} (send_resumes w e) v =
    let (t, e', safe) = send-IsSafe v in subst (IsSafe n) (some-eq e' e) safe
Step-IsSafe fl {n} {s} (copy_enters now o e) v =
    let (t, e', safe) = copy-IsSafe fl {s = record s { current_time = now }} (record {
      valid = v.valid;
      captured_fits = v.captured_fits;
      algo_in_fits = v.algo_in_fits;
      producer_waits = v.producer_waits;
      consumer_waits = v.consumer_waits;
    }) in
    subst (IsSafe n) (some-eq e' e) safe
Step-IsSafe fl {n} (copy_resumes w e) v =
    let (t, e', safe) = copy-IsSafe fl v in subst (IsSafe n) (some-eq e' e) safe
Step-IsSafe fl (producer_woken w) v = record {
  valid = v.valid;
  captured_fits = v.captured_fits;
  algo_in_fits = v.algo_in_fits;
  producer_waits = λ h. cc;
  consumer_waits = v.consumer_waits;
}
Step-IsSafe fl (consumer_woken w) v = record {
  valid = v.valid;
  captured_fits = v.captured_fits;
  algo_in_fits = v.algo_in_fits;
  producer_waits = v.producer_waits;
  consumer_waits = λ h. cc;
}

Reach-IsSafe_only : (fl : Floats) {n : ℕ} {s t : Threads} → IsSafe n s → Reach fl n s t → IsSafe n t
Reach-IsSafe_only fl v start = v
Reach-IsSafe_only fl v (next r st) = Step-IsSafe fl st (Reach-IsSafe_only fl v r)

-- However the two threads are scheduled, from a safe state no wake-up is lost: a thread stands in
-- its wait only while the ring is full (the producer) or empty (the consumer), and never do both.
pub Reach-IsSafe :
    (fl : Floats) {n : ℕ} {s t : Threads}
    → IsSafe n s
    → Reach fl n s t
    → IsSafe n t × ¬ ((t.producer ≡ waiting) × (t.consumer ≡ waiting))
Reach-IsSafe fl v r =
    let safe = Reach-IsSafe_only fl v r in
    (safe, λ h. absurd (omega (arith, safe.producer_waits h.0, safe.consumer_waits h.1)))

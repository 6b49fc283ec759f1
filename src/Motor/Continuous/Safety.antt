-- ===== src/Motor/Continuous/Safety.antt =====
-- No interleaving of the caller and the thread assigns a thread that is still joinable, and a stop
-- that has returned leaves no thread that could move the motor.
use pre.Motor.Continuous.{
  at_test, at_load, at_move, asleep, ended, Thread, joinable, After, back, start, Caller, idle,
  storing_flag, creating, undoing_flag, undoing_direction, entering, storing_direction, resumed,
  clearing_flag, clearing_direction, joining, Continuous, at_rest, launch, Step, Reach, begin, next,
  calls_start, enters, stores_direction, stores_flag, creates, creation_fails, undoes_flag,
  undoes_direction, calls_stop, clears_flag, clears_direction, joins_none, joins, tests, loads,
  loads_none, moves, wakes,
}
use pre.Prelude.{
  if◌then◌else◌, if_cases, ◌≡◌, refl, sym, ◌∙◌, subst, Bool, true, false, ◌&&◌, arith,
}

-- Whether the caller is outside of its calls.
abbrev pub is_idle : Caller → Bool
is_idle idle = true
is_idle _ = false

-- Whether the thread has ended and is not joined yet.
abbrev pub has_ended : Thread → Bool
has_ended ended = true
has_ended _ = false

-- What the place of the caller says of the flag and of a thread that is there: outside, the two agree;
-- a caller about to make a thread has none; one in a stop that has cleared the flag sees it so.
abbrev Fits : Caller → Bool → Bool → Type 0
Fits idle running there = running ≡ there
Fits (entering d) running there = running ≡ there
Fits (storing_direction d) running there = (running ≡ false) × (there ≡ false)
Fits storing_flag running there = (running ≡ false) × (there ≡ false)
Fits creating running there = (running ≡ true) × (there ≡ false)
Fits undoing_flag running there = there ≡ false
Fits undoing_direction running there = (running ≡ false) × (there ≡ false)
Fits (clearing_flag a) running there = Unit {0}
Fits (clearing_direction a) running there = running ≡ false
Fits (joining a) running there = running ≡ false

pub record IsSound (s : Continuous) : Type 0 where
  pub not_terminated : s.terminated ≡ false
  pub fits : Fits s.caller s.running (joinable s.thread)
  pub alive : s.running && has_ended s.thread ≡ false

at : {s : Continuous} {c : Caller} → IsSound s → s.caller ≡ c → Fits c s.running (joinable s.thread)
at {s} h e = subst (λ c. Fits c s.running (joinable s.thread)) e h.fits

resumed-Fits :
    (a : After) (running there : Bool)
    → running ≡ false
    → there ≡ false
    → Fits (resumed a) running there
resumed-Fits back running there h k = ground (arith, h, k)
resumed-Fits (start d) running there h k = (h, k)

-- A step of the thread keeps whether it is there.
same-Fits :
    {s : Continuous} (t : Thread)
    → IsSound s
    → joinable s.thread ≡ joinable t
    → Fits s.caller s.running (joinable t)
same-Fits {s} t h e = subst (λ b. Fits s.caller s.running b) e h.fits

no_thread_alive : (t : Thread) → joinable t ≡ false → has_ended t ≡ false
no_thread_alive t h = ground arith

Step-IsSound : {s t : Continuous} → IsSound s → Step s t → IsSound t
unfolding launch
Step-IsSound {s} h (calls_start d a) = record {
  not_terminated = h.not_terminated;
  fits = at h a;
  alive = h.alive;
}
Step-IsSound {s} h (enters d a) =
    let agree = at h a in
    record {
      not_terminated = h.not_terminated;
      fits =
          if_cases (λ c. Fits c s.running (joinable s.thread)) s.running (clearing_flag (start d))
            (storing_direction d) (λ on. tt) (λ off. (off, sym agree ∙ off));
      alive = h.alive;
    }
Step-IsSound {s} h (stores_direction d a) = record {
  not_terminated = h.not_terminated;
  fits = at h a;
  alive = h.alive;
}
Step-IsSound {s} h (stores_flag a) = record {
  not_terminated = h.not_terminated;
  fits = (refl, (at h a).1);
  alive = no_thread_alive s.thread (at h a).1;
}
Step-IsSound {s} h (creates a) =
    let (on, none_there) = at h a in
    if_cases (λ t. IsSound t) (joinable s.thread) (record s { terminated = true })
      (record s { thread = at_test; caller = idle })
      (λ there. absurd (ground (arith, there, none_there)))
      (λ e. record { not_terminated = h.not_terminated; fits = on; alive = ground arith })
Step-IsSound {s} h (creation_fails a) = record {
  not_terminated = h.not_terminated;
  fits = (at h a).1;
  alive = h.alive;
}
Step-IsSound {s} h (undoes_flag a) = record {
  not_terminated = h.not_terminated;
  fits = (refl, at h a);
  alive = ground arith;
}
Step-IsSound {s} h (undoes_direction a) = record {
  not_terminated = h.not_terminated;
  fits = ground (arith, at h a);
  alive = h.alive;
}
Step-IsSound {s} h (calls_stop a) = record {
  not_terminated = h.not_terminated;
  fits = tt;
  alive = h.alive;
}
Step-IsSound {s} h (clears_flag k a) = record {
  not_terminated = h.not_terminated;
  fits = refl;
  alive = ground arith;
}
Step-IsSound {s} h (clears_direction k a) = record {
  not_terminated = h.not_terminated;
  fits = at h a;
  alive = h.alive;
}
Step-IsSound {s} h (joins_none k a b) = record {
  not_terminated = h.not_terminated;
  fits = resumed-Fits k s.running (joinable s.thread) (at h a) b;
  alive = h.alive;
}
Step-IsSound {s} h (joins k a b) = record {
  not_terminated = h.not_terminated;
  fits = resumed-Fits k s.running false (at h a) refl;
  alive = ground arith;
}
Step-IsSound {s} h (tests a) = record {
  not_terminated = h.not_terminated;
  fits = same-Fits (if s.running then at_load else ended) h (ground (arith, a));
  alive = ground arith;
}
Step-IsSound {s} h (loads a b) = record {
  not_terminated = h.not_terminated;
  fits = same-Fits (at_move s.direction) h (ground (arith, a));
  alive = ground arith;
}
Step-IsSound {s} h (loads_none a b) = record {
  not_terminated = h.not_terminated;
  fits = same-Fits (asleep) h (ground (arith, a));
  alive = ground arith;
}
Step-IsSound {s} h (moves d a) = record {
  not_terminated = h.not_terminated;
  fits = same-Fits (asleep) h (ground (arith, a));
  alive = ground arith;
}
Step-IsSound {s} h (wakes a) = record {
  not_terminated = h.not_terminated;
  fits = same-Fits (at_test) h (ground (arith, a));
  alive = ground arith;
}

Reach-IsSound : {s : Continuous} → Reach at_rest s → IsSound s
Reach-IsSound begin = record { not_terminated = refl; fits = refl; alive = refl }
Reach-IsSound (next r e) = Step-IsSound (Reach-IsSound r) e

idle_agrees :
    (c : Caller) (running there : Bool)
    → Fits c running there
    → is_idle c && running ≡ is_idle c && there
idle_agrees idle running there h = h
idle_agrees storing_flag running there h = refl
idle_agrees creating running there h = refl
idle_agrees undoing_flag running there h = refl
idle_agrees undoing_direction running there h = refl
idle_agrees (entering d) running there h = refl
idle_agrees (storing_direction d) running there h = refl
idle_agrees (clearing_flag a) running there h = refl
idle_agrees (clearing_direction a) running there h = refl
idle_agrees (joining a) running there h = refl

-- However the calls of one caller and the thread are interleaved between two accesses, and whichever
-- threads cannot be made, no start assigns a thread that is still joinable; outside of a call the
-- flag is set exactly where a thread is there, so that after a stop none is there that could move
-- the motor; and while the flag is set the thread has not ended.
pub continuous_lem :
    (s : Continuous)
    → Reach at_rest s
    → (s.terminated ≡ false)
      × (is_idle s.caller && s.running ≡ is_idle s.caller && joinable s.thread)
      × (s.running && has_ended s.thread ≡ false)
continuous_lem s r =
    let h = Reach-IsSound r in
    (h.not_terminated, idle_agrees s.caller s.running (joinable s.thread) h.fits, h.alive)

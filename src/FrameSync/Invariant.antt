-- ===== src/FrameSync/Invariant.antt =====
-- The representation invariant of the ring of frames, and that each operation keeps it.
use pre.Prelude.{
  ltb, ◌==◌, if◌then◌else◌, Bool-cases, length, set, length-set, get_or, take, length-take,
  get_elem?-eq-get_or, get_or-set_self, get_or-set_ne, take_all, drop_all, ℕ, zero, suc, ◌+◌, ◌-◌,
  ◌%◌, ◌≤◌, ◌<◌, ◌≡◌, refl, ap, ◌∙◌, inl, inr, true, false, some, [], append-nil, arith,
}
use pre.FrameSync.{
  Frame, Timeval, FrameSync16, buffer_size, memcpy, allocate, init_frame_sync_dvp, next_pos, store,
  skip_one, skip_stale, is_late, fetch,
}
use pre.Prelude.Floats.{Floats}

-- `n` is the number of pixels of a frame. The frames that wait are those from `read_pos` on.
pub record IsRing (n : ℕ) (s : FrameSync16) : Type 0 where
  pub slots : length s.frame_buffer ≡ buffer_size
  pub sized : (i : ℕ) → i < buffer_size → length (get_or s.frame_buffer i []) ≡ n
  pub read_in : s.read_pos < buffer_size
  pub count_in : s.frame_count ≤ buffer_size
  pub write_at : s.write_pos ≡ (s.read_pos + s.frame_count) % buffer_size

-- Between two critical sections the flag says whether the ring is full.
pub record IsValid (n : ℕ) (s : FrameSync16) : Type 0 where
  pub ring : IsRing n s
  pub open ring use *
  pub full_iff : s.buffer_full ≡ (s.frame_count == buffer_size)

pub memcpy_exact :
    (n : ℕ) (dst src : Frame)
    → length dst ≡ n
    → n ≤ length src
    → memcpy n dst src ≡ some (take n src)
memcpy_exact n dst src d s = ground (arith, drop_all n dst, append-nil (take n src))

get_or-allocate :
    (fresh : ℕ → Frame) (left i j : ℕ)
    → j < left
    → get_or (allocate fresh i left) j [] ≡ fresh (i + j)
get_or-allocate fresh zero i j h = elim h [ ]
get_or-allocate fresh (suc left) i zero h = ap fresh (omega arith)
get_or-allocate fresh (suc left) i (suc j) h =
    get_or-allocate fresh left (i + 1) j (omega arith) ∙ ap fresh (omega arith)

-- The ring starts valid, with all slots free.
pub init-IsValid :
    (n : ℕ) (now : Timeval) (fresh : ℕ → Frame)
    → ((i : ℕ) → length (fresh i) ≡ n)
    → IsValid n (init_frame_sync_dvp now fresh)
unfolding init_frame_sync_dvp
init-IsValid n now fresh h = record {
  ring = record {
    slots = refl;
    sized = λ i below. ap length (get_or-allocate fresh 8 0 i below) ∙ h (0 + i);
    read_in = omega arith;
    count_in = omega arith;
    write_at = refl;
  };
  full_iff = refl;
}

-- What `store` leaves, where nothing is out of range.
abbrev pub stored : ℕ → Frame → FrameSync16 → FrameSync16
stored n captured s = record s {
  frame_buffer = set s.frame_buffer s.write_pos (take n captured);
  write_pos = next_pos s.write_pos;
  frame_count = s.frame_count + 1;
  buffer_full = if next_pos s.write_pos == s.read_pos then true else s.buffer_full;
}

module _ {n : ℕ} {s : FrameSync16} (v : IsValid n s) where
  pub write_in : s.write_pos < buffer_size
  write_in = omega (arith, v.write_at)

  pub store-eq-stored :
      (captured : Frame) → n ≤ length captured → store n captured s ≡ some (stored n captured s)
  unfolding store
  store-eq-stored captured h =
      rw
        (
          get_elem?-eq-get_or s.frame_buffer s.write_pos [] (omega (arith, v.slots, write_in)),
          memcpy_exact n (get_or s.frame_buffer s.write_pos []) captured (v.sized _ write_in) h,
        )
        refl

  pub stored-IsValid :
      (captured : Frame)
      → n ≤ length captured
      → s.frame_count < buffer_size
      → IsValid n (stored n captured s)
  stored-IsValid captured h room = record {
    ring = record {
      slots = length-set s.frame_buffer s.write_pos (take n captured) ∙ v.slots;
      sized = λ i below. elim (Bool-cases (s.write_pos == i)) [
        | inl here ↦ ground (
          arith,
          get_or-set_self s.frame_buffer i (take n captured) [],
          length-take n captured,
          v.slots,
        )
        | inr other ↦ ground (
          arith,
          get_or-set_ne s.frame_buffer s.write_pos i (take n captured) [],
          v.sized i below,
        )
      ];
      read_in = v.read_in;
      count_in = omega arith;
      write_at = omega (arith, v.write_at);
    };
    full_iff = ground (arith, v.write_at, v.full_iff, v.read_in);
  }

pub skip_one-IsRing :
    {n : ℕ} {s : FrameSync16} → IsRing n s → 1 < s.frame_count → IsRing n (skip_one s)
skip_one-IsRing v more = record {
  slots = v.slots;
  sized = v.sized;
  read_in = omega (arith, v.read_in);
  count_in = omega (arith, v.count_in);
  write_at = omega (arith, v.write_at);
}

-- The loop ends by its test within `frame_count` rounds.
pub skip_stale-IsRing :
    {n : ℕ} (fuel : ℕ) (s : FrameSync16)
    → IsRing n s
    → 0 < s.frame_count
    → s.frame_count ≤ fuel
    → IsRing n (skip_stale fuel s) × ((skip_stale fuel s).frame_count ≡ 1)
unfolding skip_stale
skip_stale-IsRing zero s v some_left h = absurd (omega arith)
skip_stale-IsRing (suc fuel) s v some_left h = elim (Bool-cases (ltb 1 s.frame_count)) [
  | inl more ↦ rw more (
      skip_stale-IsRing fuel (skip_one s) (skip_one-IsRing v (ground arith)) (ground arith)
        (omega arith))
  | inr last ↦ rw last (v, ground arith)
]

-- What `fetch` leaves, where nothing is out of range.
abbrev pub taken : Timeval → FrameSync16 → FrameSync16
taken now s = record s {
  read_pos = next_pos s.read_pos;
  frame_count = s.frame_count - 1;
  buffer_full = false;
  last_frame_time = now;
}

pub taken-IsValid :
    {n : ℕ} {s : FrameSync16} (now : Timeval)
    → IsRing n s
    → 0 < s.frame_count
    → IsValid n (taken now s)
taken-IsValid now v some_left = record {
  ring = record {
    slots = v.slots;
    sized = v.sized;
    read_in = omega (arith, v.read_in);
    count_in = omega (arith, v.count_in);
    write_at = omega (arith, v.write_at);
  };
  full_iff = ground (arith, v.count_in);
}

module _ (fl : Floats) {n : ℕ} {s : FrameSync16} (now : Timeval) (v : IsRing n s)
    (some_left : 0 < s.frame_count) where
  -- The ring after the late frames are skipped.
  abbrev pub caught_up : FrameSync16
  caught_up = if is_late fl now s.last_frame_time then skip_stale s.frame_count s else s

  pub caught_up-IsRing : IsRing n caught_up × (0 < caught_up.frame_count)
  caught_up-IsRing = elim (Bool-cases (is_late fl now s.last_frame_time)) [
    | inl late ↦ rw late (
      (skip_stale-IsRing s.frame_count s v some_left (omega arith)).0,
      omega (arith, skip_stale-IsRing s.frame_count s v some_left (omega arith)),
    )
    | inr soon ↦ rw soon (v, some_left)
  ]

  pub fetch-eq-taken :
      (algo_in : Frame)
      → length algo_in ≡ n
      → fetch fl n now algo_in s
        ≡ some (taken now caught_up, get_or caught_up.frame_buffer caught_up.read_pos [])
  unfolding fetch
  fetch-eq-taken algo_in h =
      rw
        (
          get_elem?-eq-get_or caught_up.frame_buffer caught_up.read_pos []
              (omega (arith, caught_up-IsRing.0.slots, caught_up-IsRing.0.read_in)),
          memcpy_exact n algo_in (get_or caught_up.frame_buffer caught_up.read_pos []) h (
              omega
                (arith, caught_up-IsRing.0.sized caught_up.read_pos caught_up-IsRing.0.read_in)),
        )
        (rw (
          take_all n (get_or caught_up.frame_buffer caught_up.read_pos [])
            (caught_up-IsRing.0.sized caught_up.read_pos caught_up-IsRing.0.read_in)))

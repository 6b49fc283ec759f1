-- ===== src/Dvp/Buffers.antt =====
-- The device from `DVP_Init_Device` to `DVP_Exit_Device`: what it maps, captures and unmaps.
use pre.Prelude.{
  if◌then◌else◌, get_elem?, ℕ, zero, suc, ◌+◌, Bool, not, Option, none, some, List, [], ◌∷◌,
}

-- V4L2_IR_DVP_REQ_COUNT
abbrev pub req_count : ℕ
req_count = 5

-- `struct V4L2_IR_DVP_Buffer`
pub record Buffer : Type 0 where
  pub start : ℕ
  pub length : ℕ

-- A function that returns, or that ends the program by `DVP_Error`.
pub data Outcome (A : Type 0) : Type 0 where
  done : A → Outcome A
  exited : Outcome A

-- What the driver answers for one buffer: VIDIOC_QUERYBUF with its length, `mmap`, VIDIOC_QBUF.
pub record MapReply : Type 0 where
  pub query_ok : Bool
  pub length : ℕ
  pub mapped : Option ℕ
  pub queue_ok : Bool

-- The loop of `DVP_MMAP`, one answer for each buffer that the driver has granted.
unfoldable pub map_buffers : List MapReply → Outcome (List Buffer)
map_buffers [] = done []
map_buffers (r ∷ rs) =
    let rest = map_buffers rs in
    if not r.query_ok then exited else elim r.mapped [
      | none ↦ exited
      | some a ↦ if not r.queue_ok then exited else elim rest [
        | exited ↦ exited
        | done bs ↦ done (record { start = a; length = r.length } ∷ bs)
      ]
    ]

-- `DVP_MMAP`, with whether VIDIOC_REQBUFS and `calloc` succeed.
unfoldable pub dvp_mmap : Bool → Bool → List MapReply → Outcome (List Buffer)
unfolding map_buffers
dvp_mmap reqbufs_ok calloc_ok rs =
    if not reqbufs_ok then exited else if not calloc_ok then exited else map_buffers rs

-- What `DVP_Init_Device` finds, and what `DVP_MMAP` then does.
pub record InitReplies : Type 0 where
  pub open_ok : Bool
  pub querycap_ok : Bool
  pub capture_mplane : Bool
  pub streaming : Bool
  pub known_mode : Bool
  pub set_fmt_ok : Bool
  pub reqbufs_ok : Bool
  pub calloc_ok : Bool
  pub buffers : List MapReply

-- `DVP_Open_Device` and `DVP_Init_Device`
unfoldable pub dvp_init_device : InitReplies → Outcome (List Buffer)
unfolding dvp_mmap
dvp_init_device r =
    if not open_ok
    then exited
    else if not querycap_ok
    then exited
    else if not capture_mplane
    then exited
    else if not streaming
    then exited
    else if not known_mode
    then exited
    else if not set_fmt_ok
    then exited
    else dvp_mmap reqbufs_ok calloc_ok buffers
  where
    open r use {
      open_ok, querycap_ok, capture_mplane, streaming, known_mode, set_fmt_ok, reqbufs_ok,
      calloc_ok, buffers,
    }

-- The loop of `DVP_MUNMAP` at index `i` with the rounds left: what it unmaps, start and length, the
-- length of the first buffer for all. `none` is an access past the array.
unfoldable pub munmap_from : ℕ → ℕ → List Buffer → Option (List (ℕ × ℕ))
munmap_from zero i bs = some []
munmap_from (suc left) i bs = both (get_elem? bs i) (get_elem? bs 0) (munmap_from left (i + 1) bs)
  where
    both : Option Buffer → Option Buffer → Option (List (ℕ × ℕ)) → Option (List (ℕ × ℕ))
    both (some b) (some first) (some rest) = some ((b.start, first.length) ∷ rest)
    both _ _ _ = none

-- `DVP_MUNMAP`, where each `munmap` succeeds.
unfoldable pub dvp_munmap : List Buffer → Option (List (ℕ × ℕ))
unfolding munmap_from
dvp_munmap bs = munmap_from req_count 0 bs

-- What VIDIOC_DQBUF answers: a buffer, one of the four errors that are looked at, or another.
pub data DqReply : Type 0 where
  filled : ℕ → DqReply
  eagain einval eio epipe other : DqReply

-- One round of `DVP_Capture`: the answers to VIDIOC_DQBUF and VIDIOC_QBUF.
pub record Round : Type 0 where
  pub dequeued : DqReply
  pub queue_ok : Bool

-- What the loop does with buffers, in order.
pub data Event : Type 0 where
  taken sent queued : ℕ → Event

-- The loop of `DVP_Capture` over as many rounds as are given (it is endless), from `buff.index`.
unfoldable pub dvp_capture : List Round → ℕ → Outcome (List Event)
dvp_capture [] index = done []
dvp_capture (r ∷ rs) index = elim r.dequeued [
  | filled i ↦ if not r.queue_ok then exited else elim (dvp_capture rs i) [
    | exited ↦ exited
    | done log ↦ done (taken i ∷ sent i ∷ queued i ∷ log)
  ]
  | other ↦ if not r.queue_ok then exited else elim (dvp_capture rs index) [
    | exited ↦ exited
    | done log ↦ done (sent index ∷ queued index ∷ log)
  ]
  | _ ↦ exited
]

-- ===== src/Dvp/Streaming.antt =====
-- `DVP_Streaming` of src/media/vi/v4l2_dvp.c, from the set-up to the release of the device. As compiled
-- the loop of `DVP_Capture` is endless; with __DVP_CONTINUOUS_CAPTURE__ 0 it has as many rounds as
-- __DVP_CAPTURE_FRAMES__, after which the rest runs.
use pre.Dvp.Buffers.{
  InitReplies, Outcome, done, exited, Round, Event, Buffer, dvp_init_device, dvp_capture,
  dvp_munmap,
}
use pre.Prelude.{if◌then◌else◌, ℕ, Bool, Option, none, some, List}

-- What the driver answers: to the set-up, to VIDIOC_STREAMON and VIDIOC_STREAMOFF, and to `close`.
pub record StreamReplies : Type 0 where
  pub init : InitReplies
  pub stream_on_ok : Bool
  pub stream_off_ok : Bool
  pub close_ok : Bool

-- What was done with the buffers, and what was unmapped.
pub record Streamed : Type 0 where
  pub log : List Event
  pub unmapped : List (ℕ × ℕ)

-- `DVP_Start_Capture`, `DVP_Stop_Capture` and `DVP_Close_Device`, each of one call.
abbrev pub checked : {A : Type 0} → Bool → Outcome A → Outcome A
checked ok rest = if ok then rest else exited

-- `DVP_Exit_Device`
unfoldable pub dvp_exit_device : Bool → List Event → List Buffer → Option (Outcome Streamed)
dvp_exit_device close_ok log bs = elim (dvp_munmap bs) [
  | none ↦ none
  | some unmapped ↦ some (checked close_ok (done (record { log = log; unmapped = unmapped })))
]

-- `none` is an access past the array of buffers.
unfoldable pub dvp_streaming : StreamReplies → List Round → Option (Outcome Streamed)
unfolding dvp_exit_device
dvp_streaming r rounds = elim (dvp_init_device r.init) [
  | exited ↦ some exited
  | done bs ↦ elim (checked r.stream_on_ok (dvp_capture rounds 0)) [
    | exited ↦ some exited
    | done log ↦ if r.stream_off_ok then dvp_exit_device r.close_ok log bs else some exited
  ]
]

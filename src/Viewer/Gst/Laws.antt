-- ===== src/Viewer/Gst/Laws.antt =====
-- What `VO_GST_Streaming` and `GST_Push_Frame` leave behind.
use pre.Viewer.Gst.{
  Object, main_loop, pipeline, appsrc, videoflip, videoscale, capsfilter, videoconvert, waylandsink,
  buffer, Call, created, handed_over, released, mapped, unmapped, copied, Gst, new_gst, InitReplies,
  vo_gst_streaming, PushReplies, gst_push_frame,
}
use pre.Prelude.{
  if◌then◌else◌, ◌==◌, ℕ, ◌+◌, ◌-◌, ◌≡◌, Bool, false, not, ◌&&◌, Option, none, some, List, [], ◌∷◌,
  arith,
}

abbrev pub number : Object → ℕ
number main_loop = 0
number pipeline = 1
number appsrc = 2
number videoflip = 3
number videoscale = 4
number capsfilter = 5
number videoconvert = 6
number waylandsink = 7
number buffer = 8

-- How many objects of a kind the program has to release after some calls, from `n` before them;
-- `none` where it gives one away that it does not have.
abbrev pub owned : Object → ℕ → List Call → Option ℕ
owned o n [] = some n
owned o n (created p ∷ calls) = owned o (if number o == number p then n + 1 else n) calls
owned o n (handed_over p ∷ calls) =
    let rest = owned o (if number o == number p then n - 1 else n) calls in
    if number o == number p && n == 0 then none else rest
owned o n (released p ∷ calls) =
    let rest = owned o (if number o == number p then n - 1 else n) calls in
    if number o == number p && n == 0 then none else rest
owned o n (mapped ∷ calls) = owned o n calls
owned o n (unmapped ∷ calls) = owned o n calls
owned o n (copied ∷ calls) = owned o n calls

-- Whether an element was made.
abbrev pub is_made : InitReplies → Object → Bool
is_made r appsrc = r.appsrc_made
is_made r videoflip = r.videoflip_made
is_made r videoscale = r.videoscale_made
is_made r capsfilter = r.capsfilter_made
is_made r videoconvert = r.videoconvert_made
is_made r waylandsink = r.waylandsink_made
is_made r _ = false

abbrev pub all_made : InitReplies → Bool
all_made r =
    r.appsrc_made && r.videoflip_made && r.videoscale_made && r.capsfilter_made
    && r.videoconvert_made && r.waylandsink_made

-- Whether the elements are asked for.
abbrev pub is_asked : InitReplies → Bool
is_asked r = r.main_loop_new && r.pipeline_new

-- Whatever fails, `VO_GST_Streaming` releases the main loop and the pipeline that it made, once each,
-- and nothing else that it does not have. It leaks exactly the elements that were made when another
-- one was not. It clears the two globals that it releases, and keeps `appsrc` wherever that was made.
pub vo_gst_streaming_lem :
    (r : InitReplies) (o : Object)
    → (owned o 0 (vo_gst_streaming r new_gst).1
        ≡ some (if is_asked r && is_made r o && not (all_made r) then 1 else 0))
      × ((vo_gst_streaming r new_gst).0
          ≡ record new_gst { has_appsrc = is_asked r && r.appsrc_made })
unfolding vo_gst_streaming
vo_gst_streaming_lem r main_loop = (ground arith, ground arith)
vo_gst_streaming_lem r pipeline = (ground arith, ground arith)
vo_gst_streaming_lem r appsrc = (ground arith, ground arith)
vo_gst_streaming_lem r videoflip = (ground arith, ground arith)
vo_gst_streaming_lem r videoscale = (ground arith, ground arith)
vo_gst_streaming_lem r capsfilter = (ground arith, ground arith)
vo_gst_streaming_lem r videoconvert = (ground arith, ground arith)
vo_gst_streaming_lem r waylandsink = (ground arith, ground arith)
vo_gst_streaming_lem r buffer = (ground arith, ground arith)

-- Whatever fails, `GST_Push_Frame` has nothing to release when it returns.
pub gst_push_frame_lem :
    (r : PushReplies) (g : Gst) (o : Object) → owned o 0 (gst_push_frame r g).1 ≡ some 0
unfolding gst_push_frame
gst_push_frame_lem r g main_loop = ground arith
gst_push_frame_lem r g pipeline = ground arith
gst_push_frame_lem r g appsrc = ground arith
gst_push_frame_lem r g videoflip = ground arith
gst_push_frame_lem r g videoscale = ground arith
gst_push_frame_lem r g capsfilter = ground arith
gst_push_frame_lem r g videoconvert = ground arith
gst_push_frame_lem r g waylandsink = ground arith
gst_push_frame_lem r g buffer = ground arith

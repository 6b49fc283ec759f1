-- ===== src/Viewer/Gst.antt =====
-- shm_gst/gst.cpp: what it creates of GStreamer, whose answers are arguments, and releases again. The
-- properties that it sets are left out.
pub mod Laws
use pre.Prelude.{if◌then◌else◌, Bool, true, false, not, ◌&&◌, List, [], ◌∷◌, ◌++◌}
use pre.Prelude.Int.{ℤ, pos, negsuc}

pub data Object : Type 0 where
  main_loop pipeline appsrc videoflip videoscale capsfilter videoconvert waylandsink buffer : Object

-- The calls that create an object, hand it over to another one, or release it. A pipeline releases the
-- elements that it was handed, and so does the source with the buffers that it was handed.
pub data Call : Type 0 where
  created handed_over released : Object → Call
  mapped unmapped copied : Call

-- The globals; those of the two elements are never read again but for `appsrc`.
pub record Gst : Type 0 where
  pub has_pipeline : Bool
  pub has_appsrc : Bool
  pub has_main_loop : Bool

abbrev pub new_gst : Gst
new_gst = record { has_pipeline = false; has_appsrc = false; has_main_loop = false }

-- Whether each call of the set-up gives an object or succeeds.
pub record InitReplies : Type 0 where
  pub main_loop_new : Bool
  pub pipeline_new : Bool
  pub appsrc_made : Bool
  pub videoflip_made : Bool
  pub videoscale_made : Bool
  pub capsfilter_made : Bool
  pub videoconvert_made : Bool
  pub waylandsink_made : Bool
  pub linked : Bool
  pub playing : Bool

unfoldable pub gst_init : InitReplies → Gst → ℤ × Gst × List Call
gst_init r g =
    if r.main_loop_new
    then (pos 0, record g { has_main_loop = true }, created main_loop ∷ [])
    else (negsuc 0, record g { has_main_loop = false }, [])

unfoldable pub gst_deinit : Gst → Gst × List Call
gst_deinit g = (
  record g { has_pipeline = false; has_main_loop = false },
  (if g.has_pipeline then released pipeline ∷ [] else [])
      ++ (if g.has_main_loop then released main_loop ∷ [] else []),
)

-- `gst_element_factory_make`
abbrev pub made : Bool → Object → List Call
made ok o = if ok then created o ∷ [] else []

unfoldable pub gst_create_pipeline : InitReplies → Gst → ℤ × Gst × List Call
gst_create_pipeline r g =
    let g' = record g { has_pipeline = true; has_appsrc = r.appsrc_made } in
    let calls =
      created pipeline ∷ made r.appsrc_made appsrc
      ++ made r.videoflip_made videoflip
      ++ made r.videoscale_made videoscale
      ++ made r.capsfilter_made capsfilter
      ++ made r.videoconvert_made videoconvert
      ++ made r.waylandsink_made waylandsink in
    let all_made =
      r.appsrc_made && r.videoflip_made && r.videoscale_made && r.capsfilter_made
      && r.videoconvert_made && r.waylandsink_made in
    let added =
      calls
      ++ handed_over appsrc
        ∷ handed_over videoflip
        ∷ handed_over videoscale
        ∷ handed_over capsfilter
        ∷ handed_over videoconvert
        ∷ handed_over waylandsink
        ∷ [] in
    if not r.pipeline_new
    then (negsuc 0, record g { has_pipeline = false }, [])
    else if not all_made
    then (negsuc 0, g', calls)
    else if not r.linked
    then (negsuc 0, g', added)
    else if not r.playing
    then (negsuc 0, g', added)
    else (pos 0, g', added)

-- `VO_GST_Streaming`, with what the main loop ends by left out.
unfoldable pub vo_gst_streaming : InitReplies → Gst → Gst × List Call
unfolding gst_init gst_create_pipeline gst_deinit
vo_gst_streaming r g =
    let (status, g1, calls1) = gst_init r g in
    let (status', g2, calls2) = gst_create_pipeline r g1 in
    let (g3, calls3) = gst_deinit g2 in
    elim status [ negsuc k ↦ (g1, calls1) | pos k ↦ (g3, calls1 ++ calls2 ++ calls3) ]

-- Whether each call of `GST_Push_Frame` succeeds.
pub record PushReplies : Type 0 where
  pub buffer_new : Bool
  pub buffer_map : Bool
  pub push_ok : Bool

-- `GST_Push_Frame`. The source takes the buffer over whatever it returns.
unfoldable pub gst_push_frame : PushReplies → Gst → ℤ × List Call
gst_push_frame r g =
    if not g.has_appsrc
    then (negsuc 0, [])
    else if not r.buffer_new
    then (negsuc 0, [])
    else if not r.buffer_map
    then (negsuc 0, created buffer ∷ released buffer ∷ [])
    else (
      if r.push_ok then pos 0 else negsuc 0,
      created buffer ∷ mapped ∷ copied ∷ unmapped ∷ handed_over buffer ∷ [],
    )

-- ===== src/Lib.antt =====
-- Verification of Pre, the front end of an infrared camera: it captures 16-bit frames, maps
-- temperatures to colours with OpenCL, logs over UDP, and drives the lens motors over a serial line.
--
-- Parts, by the file that models each:
-- - FrameSync: the ring of eight frames between the capture thread (`DVP_Send`,
--   src/media/vi/v4l2_dvp.c) and the output thread (`SHM_VO_Copy`, src/media/vo/shm_vo.cpp), with
--   `Init_Frame_Sync_DVP` of src/config/config.c. `FrameSync` has what runs with the mutex held;
--   `FrameSync/Threads` has both threads as steps between points where the mutex is free.
-- - Lut: the colour tables, src/config/lut/lut.c and lut.h (`Init_LUT`, `Free_LUT`, `Get_LUT`).
-- - QuickSelect: `partition` and `quickSelect` of src/media/algo/pseudo/pseudo_am.cpp, and those of
--   `class Diff`, src/media/algo/gass/diff.cpp.
-- - Motor: the commands and replies of `class Motor`, src/utils/uart/motor.cpp and motor.h, and in
--   `Motor/Continuous` the thread of `Move_IR_Start` and `Move_IR_Stop`.
-- - Cl: the OpenCL wrappers of src/config/cl: `Cl/Tm` is tm_cl.c, `Cl/Diff` diff_cl.c, `Cl/Filter`
--   filter_cl.c, `Cl/Pseudo` and `Cl/PseudoLut` pseudo_cl.c, `Cl/Source` cl.c.
-- - Litelog: the log client, src/utils/log/litelog.c and litelog.h.
-- - Uart: the serial line, src/utils/uart/uartwrap.c (`Uart`) and `class UART` of
--   src/utils/uart/uartclass.cpp (`Uart/Line`).
-- - Dvp: the capture device of src/media/vi/v4l2_dvp.c: modes in `Dvp`, buffers and the loop of
--   `DVP_Capture` in `Dvp/Buffers`, and `DVP_Streaming` in `Dvp/Streaming`.
-- - Config: src/config/config.c: `Config/Params` and `Config/Text` are Read_Temp_Params,
--   `Config/User` the configuration, `Config/Startup` Config_Init and Config_Exit.
-- - Remote: `Remote/Message` is src/utils/jwrap/jwrap.cpp, `Remote/Controller` and `Remote/Listen`
--   controller.cpp and listen.cpp of src/utils/listen, `Remote/Fpga` src/utils/uart/fpga.cpp.
-- - Range: `class PseudoAdaptiveMapper`, src/media/algo/pseudo/pseudo_am.cpp.
-- - Gas: `class Diff`, src/media/algo/gass/diff.cpp.
-- - Picture: Process_One_Frame, src/media/algo/algo.cpp, with src/media/algo/pseudo/pseudo.cpp,
--   filter/filter.cpp and tm/tm.cpp.
-- - Output: shared memory, src/media/vo/shm_vo.cpp; `Output/Process` joins the ring, the picture and
--   the segments as SHM_VO_Process does.
-- - Dvp/Preprocess: DVP_IR_Preprocess of src/media/vi/v4l2_dvp.c, with its filters.
-- - AutoFocus: `class Auto_Focusing`, src/media/algo/af/ir_auto_focusing.cpp, in three tries of at most
--   100 rounds for each of its three moves and 10 rounds of fine tuning, as in the source.
-- - AutoFocus/Ir: `AF_IR::Focus`, src/media/algo/af/af_ir.cpp, as the calls of the motor that it makes.
-- - Kernels: the OpenCL kernels src/config/cl/pseudo.cl, tm.cl, diff.cl and filter.cl: the values that
--   one work-item computes, and runs of work-items in any order.
-- - Viewer: the programs that read shared memory: `Viewer/Recorder` is shm/main.cpp, `Viewer/Gst`
--   shm_gst/gst.cpp, `Viewer/Show` shm_gst/main.cpp, and `Viewer/Exchange` the copies of its main loop
--   against those of SHM_VO_Send.
-- - Prelude: the shared names, lists, words, signed integers and bits.
--
-- State is passed explicitly: a function takes the struct and returns the new one, beside its status.
-- What the system, the C library or OpenCL answers is an argument (records named Io or Replies): the
-- theorems hold for every answer that their hypotheses leave. An access out of range is `none` or
-- `out_of_range`. A float of C is an element of a type with operations that the theorems do not
-- constrain (`Prelude/Floats`).
--
-- The parts meet in `Config/Startup`, which sets up the tables and the OpenCL wrappers, in `Picture`,
-- which runs a frame through the wrappers, the range and the gas difference, in `Output/Process`,
-- which takes a frame from the ring and sends its picture, and in `Remote/Listen`, which changes
-- the configuration that a frame reads.
--
-- Bounds: pixels and bytes are numbers, wrapped where the source wraps them; sums of indices stay far
-- below 2^31. The loop that skips frames has fuel `frame_count`, which it never exhausts, since each
-- round takes one frame. `quickSelect` has fuel the length of its range, which drops at each call.
--
-- The search for a free port has fuel 65536, one try for each port. `UART::Send` and the capture loop
-- run over the list of the system's answers. The two loops of `AF_IR::Focus` have no bound in the
-- source: their fuel is an argument, and more than the number of answers before the last one is enough.
--
-- Not modelled: the printing of texts, a failed allocation of frames, OpenCV, cJSON, MQTT, GStreamer
-- and the built-in functions of OpenCL, whose answers are arguments; src/utils/mqtt, a copy of another
-- project; what the compile-time options leave out, as the saving of captured frames; and the order in
-- which src/main.cpp starts and joins the threads.
pub mod Prelude
pub mod Cl
pub mod Dvp
pub mod Config
pub mod FrameSync
pub mod Lut
pub mod Litelog
pub mod Motor
pub mod QuickSelect
pub mod AutoFocus
pub mod Kernels
pub mod Gas
pub mod Range
pub mod Picture
pub mod Output
pub mod Remote
pub mod Viewer
pub mod Uart

-- ===== src/Viewer.antt =====
-- The programs that read shared memory: shm/main.cpp, which records another program's pictures, and
-- shm_gst/main.cpp, which shows those of src/media/vo/shm_vo.cpp through shm_gst/gst.cpp.
pub mod Exchange
pub mod Recorder
pub mod Gst
pub mod Show
mod Tests

-- ===== src/Remote.antt =====
-- The remote control: the messages of src/utils/jwrap, the commands of src/utils/listen, and those of
-- src/utils/uart/fpga.cpp.
pub mod Controller
pub mod Message
pub mod Listen
pub mod Fpga
mod Names
mod Laws
mod FpgaLaws
mod Tests

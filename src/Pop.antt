-- ===== src/Pop.antt =====
-- src/protocols/pop/POPProtocol.h and POPProtocol.cc, POPInfo.h: the inspection of POP.
pub mod Line
pub mod Commands
pub mod Extract
pub mod Within
pub mod Account
pub mod Session
pub mod Whole
pub mod Tests

-- ===== src/Imap.antt =====
-- src/protocols/imap/IMAPProtocol.h and IMAPProtocol.cc, IMAPInfo.h: the inspection of IMAP.
pub mod Login
pub mod Commands
pub mod Session
pub mod Extract
pub mod Short
pub mod Tests

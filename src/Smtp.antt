-- ===== src/Smtp.antt =====
-- src/protocols/smtp/SMTPProtocol.h and SMTPProtocol.cc, SMTPInfo.h: the inspection of SMTP.
pub mod Address
pub mod Commands
pub mod Session
pub mod Extract
pub mod Account
pub mod Tests

-- ===== src/Dns.antt =====
-- src/protocols/dns/DNSProtocol.h and DNSProtocol.cc, DNSInfo.h: the inspection of DNS messages.
pub mod Message
pub mod Query
pub mod Response
pub mod Extract
pub mod Wire
pub mod Account
pub mod Tests

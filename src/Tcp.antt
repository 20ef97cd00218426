-- ===== src/Tcp.antt =====
-- src/protocols/tcp: the connection state machine, its per-flow record and the packet handler.
pub mod States
pub mod Info
pub mod Machine
pub mod Compute
pub mod Trace
pub mod Connection
pub mod Flows
pub mod Ready
pub mod Opening
pub mod Process
pub mod Dispatch
pub mod Serving
pub mod Steps
pub mod Closing
pub mod Whole
pub mod FlowTests
pub mod Sessions
pub mod Tests

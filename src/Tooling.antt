-- ===== src/Tooling.antt =====
-- runtime/tooling.py: the tool protocol of a request. JSON and the tools themselves are parameters.
pub mod Protocol
pub mod Filtering
pub mod Envelopes
pub mod Registry
pub mod Attempts
pub mod Calls
pub mod RoundTrip
pub mod Records
mod Tests

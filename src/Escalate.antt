-- ===== src/Escalate.antt =====
-- agent/escalate.py: the leash on every way to reach a human, and the channels behind it.
-- `Leash` has the rate limits and the deduplication, `Brand` the spoken and written prefix,
-- `Carriers` the chains of providers, `Channels` the calls of the agent.
mod Tests
pub mod Leash
pub mod Brand
pub mod Carriers
pub mod Channels
pub mod Email

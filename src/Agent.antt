-- ===== src/Agent.antt =====
-- agent/sre_agent.py: the agent of one region.
mod Tests
pub mod Api
pub mod Reports
pub mod Tools
pub mod Signals
pub mod Acks
pub mod Liveness
pub mod Watch
pub mod Alerts
pub mod Loop
pub mod Chat
pub mod Repair
pub mod Phones
pub mod Host

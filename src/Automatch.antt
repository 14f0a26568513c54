-- ===== src/Automatch.antt =====
-- src/automatch.rs: the queue that pairs players, the delay that a pair runs, and its retention rules.
pub mod Delay
pub mod Floor
pub mod Ticket
pub mod Queue
pub mod Driver
pub mod Exemptions
pub mod Rulesets
pub mod Examples

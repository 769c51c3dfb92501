-- ===== src/Leader.antt =====
-- paxos2/lib/proposer_leader.c: what a proposer does while it is the leader, over the proposer's
-- state of proposer.c.
pub mod State
pub mod Phase1
pub mod Phase2
pub mod Deliver

-- ===== src/Ring.antt =====
-- ring_paxos: the protocol in which the acceptors are a ring behind a multicasting leader.
pub mod Types
pub mod Network
pub mod Ballot
pub mod Delivery
pub mod Learner
pub mod Storage
pub mod Acceptor
pub mod Queue
pub mod Mcaster
pub mod Config
pub mod Pool

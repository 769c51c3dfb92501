-- ===== src/Ring/Mcaster.antt =====
-- ring_paxos/ring-paxos/acceptor_helpers_mcaster.c: the acceptor that is the multicaster.
pub mod Storage
pub mod State
pub mod Open
pub mod Handlers
pub mod Slots
pub mod Get
pub mod At
pub mod Inv
pub mod Found
pub mod Opened
pub mod Proposed
pub mod Answered
pub mod Requested
pub mod Closed
pub mod Events
pub mod Repeated
pub mod Dropped

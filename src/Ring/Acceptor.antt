-- ===== src/Ring/Acceptor.antt =====
-- ring_paxos/ring-paxos/acceptor_helpers.c: an acceptor of the ring, with the dispatch of messages
-- in acceptor_events.c for one that is not the multicaster.
-- A result `none` is an assertion that fails, a read or `free` of a block that is not allocated,
-- or a record that is archived. The address that `malloc` returns is an argument. Counters of
-- events are left out; a message comes with its fields read.
pub mod State
pub mod Grows
pub mod Phase1
pub mod Phase2
pub mod Mapping
pub mod Dispatch

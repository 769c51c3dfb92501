-- ===== src/Lib.antt =====
-- Two replicated logs by the Paxos protocol: libpaxos2 (src_tree/fds/lib/paxos2), over UDP multicast,
-- and Ring Paxos (src_tree/fds/lib/ring_paxos), whose acceptors form a ring.
--
-- libpaxos2.
-- Proposers send prepare and accept requests for numbered instances to the acceptors, which keep a
-- record of each instance in a database and answer; learners count the acknowledgements of accept
-- requests, and deliver the chosen values in the order of the instances. One proposer is the leader:
-- it opens instances in advance (phase 1), takes values of clients from a pending list, and sends
-- them (phase 2). A learner runs beside each proposer, and tells it what was delivered.
--
-- Files, with the code of src_tree/fds/lib/paxos2 that they model:
--   Config      paxos_config.h, the constants; the sizes are those of an LP64 machine
--   Messages    include/libpaxos_messages.h, and the sizes of batches in lib/udp_receiver.c
--   SendBuf     lib/udp_sendbuf.c, the buffer of a batch (sendbuf_clear, sendbuf_add_*, sendbuf_flush)
--   Storage     lib/acceptor_stable_storage.c, records in a database
--   Acceptor    lib/acceptor.c, from acc_handle_newmsg down, the repeater and the delivery callback
--   Learner     lib/learner.c, from lea_handle_newmsg down, and lea_hole_check
--   Values      lib/proposer_values_handler.c, the linked list of pending values, on a heap
--   Instance    lib/proposer.c, the record of an instance and its promises; the deadlines of
--               lib/proposer_leader.c
--   Leader      lib/proposer_leader.c: State (the static variables of lib/proposer.c), Phase1, Phase2,
--               and Deliver (leader_deliver, leader_init, leader_shutdown)
--   Proposer    lib/proposer.c, the handlers
--
-- Ring Paxos. A multicaster sends commands with their keys to acceptors and learners, and the
-- acceptors pass messages of phase 1 and phase 2, which carry keys, along the ring. A learner delivers
-- an instance once it knows both the mapping of a key to its command and the key that was accepted;
-- it asks the multicaster for what it misses.
--
-- Files, with the code of src_tree/fds/lib/ring_paxos that they model:
--   Ring/Types     identifiers of commands (include/paxos_config.h, include/lp_utils.h), lib/timers.c
--   Ring/Ballot    lib/util.c, the ballots
--   Ring/Network   lib/network_udp.c, the buffer of a sender and the receiver of a packet
--   Ring/Delivery  lib/delivery_queue.c; the periodic check in Delivery/Periodic
--   Ring/Learner   lib/ringpaxos_learner.c, with what is delivered (Stream) and asked for (Requests)
--   Ring/Storage   lib/stable_storage_1.c
--   Ring/Acceptor  ring-paxos/acceptor_helpers.c and ring-paxos/acceptor_events.c, for an acceptor
--                  that is not the multicaster
--   Ring/Mcaster   ring-paxos/acceptor_helpers_mcaster.c and lib/mcaster_storage.c, for the acceptor that
--                  is the multicaster: Storage (the records), State (the routines that send), Open (the
--                  periodic check), Handlers; its invariant in Inv, kept by every event (Events)
--   Ring/Queue     lib/queue.c, and the calls of it in lib/client_values_manager.c
--   Ring/Pool      lib/memory_pool.c, a pool of blocks in such a queue
--   Ring/Config    lib/config_parser.c, the check of a configuration (validate_config), with the macros of
--                  include/lp_config_parser_macros.h
--
-- Of both:
--   Prelude     shared names and lemmas; Tests, the theorems at concrete inputs
-- Proofs stand in the files below the one that they are about.
--
-- A handler is a function from its message and the state to the new state and what others can
-- observe: the packets sent, the records written, and where transactions begin and end. A result
-- `none` is an assertion that fails or a pointer that is NULL. An array is a function on its indices,
-- indexed with the code's mask. Instance ids, ballots and the leader's counters of
-- libpaxos2 wrap at 2 ^ 32; instance numbers of Ring Paxos have 64 bits and are counted without a
-- wrap, its 32-bit ballots and counters wrap. Its acceptors' memory is a function of addresses, the
-- bytes of its messages' headers are those of a little-endian machine, and the system call that
-- sends a packet is an argument.
--
-- The database (Berkeley DB) is the record Storage.Db, of its `get` and `put` and the law that a
-- `put` replaces one record. A transaction's begin and end are the calls of stablestorage_tx_begin and
-- stablestorage_tx_end, which do nothing with the DURABILITY_MODE 0 of paxos_config.h. Assertions
-- that an array's or the database's record has the id it was looked up by are left out of
-- libpaxos2 where the invariants of Acceptor/Inv and Learner/Window give them, as the files say.
-- `gettimeofday` is an argument: the results of its calls in order.
--
-- Loops: those over a batch are recursion on its list, and those over a range of instances on the
-- range's length. The loop of `lea_deliver_next_closed` has as many rounds as the learner's array has
-- records, each of which is cleared when it is delivered; `vh_shutdown` takes fuel, and a list's
-- length and one is enough. The loop of `leader_open_instances_p2_new` has the rounds that its
-- bound leaves. In Ring Paxos the loop over the messages of a packet has as many rounds as the packet
-- has bytes, and the loops of the delivery queue as many as the queue has entries. The multicaster's loops
-- over a range count in 32 bits, and have the rounds from the counter's start to the bound: `none` is
-- a loop that does not end. Its loop that opens instances in phase 2 has the rounds of the instances
-- that phase 1 has opened and one, after which it ends itself; the loop that closes instances has as many
-- rounds as there are records and one.
--
-- Not modelled: sockets, the event loop with its timers and threads, opening and recovery of the
-- database, the printing of counters, and the examples and scripts. Of Ring Paxos also the
-- reading of the lines of a configuration, and the topology. The vendored cityhash-1.1.0 is a library of another project.
pub mod Prelude
pub mod Config
pub mod Messages
pub mod SendBuf
pub mod Storage
pub mod Acceptor
pub mod Learner
pub mod Values
pub mod Instance
pub mod Leader
pub mod Proposer
pub mod Ring
pub mod Tests

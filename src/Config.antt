-- ===== src/Config.antt =====
-- paxos2/paxos_config.h: the protocol's constants.
-- Sizes are those of the LP64 layout of the structures in paxos2/include/libpaxos_messages.h.
use fds.Prelude.{ℕ, ◌+◌, ◌/◌, ◌^◌}

abbrev pub proposer_preexec_win_size : ℕ
proposer_preexec_win_size = 300

abbrev pub proposer_p2_concurrency : ℕ
proposer_p2_concurrency = 3

-- Microseconds.
abbrev pub p1_timeout_interval : ℕ
p1_timeout_interval = 30000

abbrev pub p2_timeout_interval : ℕ
p2_timeout_interval = 35000

abbrev pub max_n_of_proposers : ℕ
max_n_of_proposers = 10

abbrev pub n_of_acceptors : ℕ
n_of_acceptors = 3

abbrev pub quorum : ℕ
quorum = n_of_acceptors / 2 + 1

abbrev pub leader_max_queue_length : ℕ
leader_max_queue_length = 50

abbrev pub max_udp_msg_size : ℕ
max_udp_msg_size = 7500

abbrev pub proposer_array_size : ℕ
proposer_array_size = 2048

abbrev pub learner_array_size : ℕ
learner_array_size = 2048

-- `uint32_t` and `unsigned int`, of instance ids, ballots and counters.
abbrev pub u32_mod : ℕ
u32_mod = 2 ^ 32

-- ===== src/Tests/Config.antt =====
-- The check of a configuration at concrete ones.
use fds.Prelude.{◌≡◌, refl, [], true, if◌then◌else◌, ltb, ◌<◌, ◌+◌, some, arith}
use fds.Prelude.Int.{pos, negsuc}
use fds.Ring.Config.{
  ConfigMngr, System, set_defaults, check_times, check_quorum, check_sizes, count_acceptors,
  check_count, validate_config, is_nonzero, is_ge, validate_socket_buffer_size,
}
use fds.Ring.Config.Accepted.{validate_config-IsConfig}
use fds.Ring.Config.Quorum.{with_quorum, quorum_not_compared}
use fds.Ring.Mcaster.Storage.{McasterConfig}
use fds.Ring.Mcaster.Inv.{IsConfig}
use mathlib.Core.Option

abbrev small_system : System
small_system = record {
  is_address = λ a. true;
  max_rbuf_size = pos 200000;
  max_wbuf_size = pos 200000;
}

-- Two acceptors, a quorum of two, and no sizes.
abbrev two_acceptors : ConfigMngr
two_acceptors = record {
  acceptors_count = pos 2;
  p1_interval = record { tv_sec = pos 1; tv_usec = pos 0 };
  p2_interval = record { tv_sec = pos 1; tv_usec = pos 0 };
  delivery_check_interval = record { tv_sec = pos 0; tv_usec = pos 0 };
  mcaster_clock_interval = record { tv_sec = pos 0; tv_usec = pos 0 };
  default_autoflush_interval = negsuc 0;
  retransmit_request_interval = record { tv_sec = pos 0; tv_usec = pos 0 };
  socket_buffers_size = pos 100000;
  mcast_addr = [];
  mcast_port = pos 6000;
  quorum_size = 2;
  working_set_size = pos 0;
  max_active_instances = pos 0;
  preexecution_window_size = pos 0;
  max_p2_open_per_iteration = pos 0;
  max_client_values_queue_size = pos 0;
  acc_infos = λ i. record {
    id = if ltb i 3 then i else 0;
    ip_addr = [];
    inbound_port = pos 3000;
    learners_port = pos 4000;
  };
}

abbrev default_mcaster : McasterConfig
default_mcaster = record {
  self_acceptor_id = 1;
  incarnation_number = 0;
  quorum_size = 2;
  working_set_size = 100;
  max_active_instances = 25;
  preexecution_window_size = 50;
  max_p2_open_per_iteration = 10;
  p1_interval = record { tv_sec = 1; tv_usec = 0 };
  p2_interval = record { tv_sec = 1; tv_usec = 0 };
  retransmit_request_interval = record { tv_sec = 1; tv_usec = 0 };
}

two_acceptors-accepted :
    validate_config small_system two_acceptors ≡ some (some (set_defaults two_acceptors))
unfolding validate_config set_defaults check_times check_quorum check_sizes count_acceptors
    check_count is_nonzero is_ge validate_socket_buffer_size
two_acceptors-accepted = refl

validate_config-IsConfig_example :
    (0 < 25) × (0 < 50) × (0 < 10) × (50 + 25 < 100) × IsConfig default_mcaster
unfolding set_defaults
validate_config-IsConfig_example =
    validate_config-IsConfig small_system two_acceptors (set_defaults two_acceptors) default_mcaster
      two_acceptors-accepted refl refl refl refl (omega arith) (omega arith)

-- A quorum of nine with two acceptors.
quorum_not_compared_example :
    validate_config small_system (with_quorum 9 two_acceptors)
    ≡ Option.map (Option.map (with_quorum 9)) (validate_config small_system two_acceptors)
quorum_not_compared_example =
    quorum_not_compared small_system two_acceptors 1 9 refl (omega arith) (omega arith)
      (omega arith) (omega arith)

-- The sum of the two windows wraps to a negative number.
abbrev wrapping : ConfigMngr
wrapping = record two_acceptors {
  max_active_instances = pos 2000000000;
  preexecution_window_size = pos 2000000000;
}

wrapping-accepted : validate_config small_system wrapping ≡ some (some (set_defaults wrapping))
unfolding validate_config set_defaults check_times check_quorum check_sizes count_acceptors
    check_count is_nonzero is_ge validate_socket_buffer_size
wrapping-accepted = refl

-- ===== src/Ring/Config.antt =====
-- ring_paxos/lib/config_parser.c: the check of a configuration that is read.
-- What `inet_addr` and the system say is an argument.
-- A sum of two `int` wraps at 32 bits, as machines compute it.
pub mod Accepted
pub mod Quorum
use fds.Prelude.{
  ℕ, zero, suc, ◌+◌, ◌-◌, ◌*◌, ◌%◌, ◌^◌, List, Bool, true, false, ◌&&◌, ◌||◌, not, Option, none,
  some, ltb, leb, ◌==◌, if◌then◌else◌, ◌>>=◌, ◌>>◌, assert,
}
use fds.Prelude.Int.{ℤ, pos, negsuc, pos_part, neg_part, ltb_ℤ}

pub record AcceptorInfo : Type 0 where
  pub id : ℕ
  pub ip_addr : List ℕ
  pub inbound_port : ℤ
  pub learners_port : ℤ

-- A `struct timeval`, as it is read.
pub record Interval : Type 0 where
  pub tv_sec : ℤ
  pub tv_usec : ℤ

pub record ConfigMngr : Type 0 where
  pub acceptors_count : ℤ
  pub p1_interval : Interval
  pub p2_interval : Interval
  pub delivery_check_interval : Interval
  pub mcaster_clock_interval : Interval
  pub default_autoflush_interval : ℤ
  pub retransmit_request_interval : Interval
  pub socket_buffers_size : ℤ
  pub mcast_addr : List ℕ
  pub mcast_port : ℤ
  pub quorum_size : ℕ
  pub working_set_size : ℤ
  pub max_active_instances : ℤ
  pub preexecution_window_size : ℤ
  pub max_p2_open_per_iteration : ℤ
  pub max_client_values_queue_size : ℤ
  pub acc_infos : ℕ → AcceptorInfo

-- `inet_addr(A) != INADDR_NONE`, and the largest buffers of sockets, or less than 0 for an error.
pub record System : Type 0 where
  pub is_address : List ℕ → Bool
  pub max_rbuf_size : ℤ
  pub max_wbuf_size : ℤ

abbrev pub is_positive : ℤ → Bool
is_positive i = ltb_ℤ (pos 0) i

-- VALIDATE_INT_NONZERO_OR_DEFAULT
abbrev pub nonzero_or_default : ℤ → ℕ → ℤ
nonzero_or_default i def = if is_positive i then i else pos def

-- `!X`
abbrev pub bang : ℤ → ℤ
bang (pos n) = if n == 0 then pos 1 else pos 0
bang (negsuc n) = pos 0

-- `(int)` of an unsigned number.
abbrev pub int_of_unsigned : ℕ → ℤ
int_of_unsigned n = if ltb n (2 ^ 31) then pos n else negsuc (2 ^ 32 - n - 1)

-- An `int` as 32 bits, and the sum of two.
abbrev pub word_of_int : ℤ → ℕ
word_of_int (pos n) = n % 2 ^ 32
word_of_int (negsuc n) = 2 ^ 32 - 1 - n % 2 ^ 32

abbrev pub add_int : ℤ → ℤ → ℤ
add_int i j = int_of_unsigned ((word_of_int i + word_of_int j) % 2 ^ 32)

-- VALIDATE_PORTNUMBER
abbrev pub is_port : ℤ → Bool
is_port p = ltb_ℤ (pos 1024) p

-- `tv_sec * 1000000 + tv_usec > 0`
unfoldable pub is_nonzero : Interval → Bool
is_nonzero t =
    ltb (neg_part t.tv_sec * 1000000 + neg_part t.tv_usec)
      (pos_part t.tv_sec * 1000000 + pos_part t.tv_usec)

abbrev pub interval_or_default : Interval → ℕ → ℕ → Interval
interval_or_default t sec usec =
    if is_nonzero t then t else record { tv_sec = pos sec; tv_usec = pos usec }

-- VALIDATE_TIMEVAL_GREATER_EQUAL_THAN
unfoldable pub is_ge : Interval → Interval → Bool
is_ge t u =
    not (ltb_ℤ t.tv_sec u.tv_sec || (not (ltb_ℤ u.tv_sec t.tv_sec) && ltb_ℤ t.tv_usec u.tv_usec))

-- The defaults that are set. A check that fails gives up the whole configuration, so they are set
-- here before all checks.
unfoldable pub set_defaults : ConfigMngr → ConfigMngr
unfolding is_nonzero
set_defaults cfg = record cfg {
  mcaster_clock_interval = interval_or_default cfg.mcaster_clock_interval 0 100000;
  delivery_check_interval = interval_or_default cfg.delivery_check_interval 1 0;
  retransmit_request_interval = interval_or_default cfg.retransmit_request_interval 1 0;
  default_autoflush_interval = nonzero_or_default cfg.default_autoflush_interval 50;
  working_set_size = nonzero_or_default cfg.working_set_size 100;
  max_active_instances = nonzero_or_default cfg.max_active_instances 25;
  preexecution_window_size = nonzero_or_default cfg.preexecution_window_size 50;
  max_p2_open_per_iteration = nonzero_or_default cfg.max_p2_open_per_iteration 10;
  max_client_values_queue_size = nonzero_or_default cfg.max_client_values_queue_size 100;
}

-- The address, the port and the intervals.
unfoldable pub check_times : System → ConfigMngr → Bool
unfolding is_nonzero is_ge
check_times sys cfg =
    sys.is_address cfg.mcast_addr
    && (is_port cfg.mcast_port
        && (is_nonzero cfg.p1_interval
            && (is_nonzero cfg.p2_interval
                && (is_ge cfg.p2_interval cfg.mcaster_clock_interval
                    && (is_ge cfg.p1_interval cfg.mcaster_clock_interval
                        && is_ge cfg.retransmit_request_interval cfg.delivery_check_interval)))))

-- VALIDATE_INT_COMPARISON negates its first argument alone: `! X OP Y` is `(! X) OP Y`, and an
-- error where that holds.
unfoldable pub check_quorum : ConfigMngr → Bool
check_quorum cfg =
    not (cfg.quorum_size == 0) && ltb_ℤ (bang cfg.acceptors_count) (int_of_unsigned cfg.quorum_size)

unfoldable pub validate_socket_buffer_size : System → ℤ → Bool
validate_socket_buffer_size sys size =
    not (ltb_ℤ sys.max_rbuf_size (pos 0))
    && (not (ltb_ℤ sys.max_rbuf_size size)
        && (not (ltb_ℤ sys.max_wbuf_size (pos 0)) && not (ltb_ℤ sys.max_wbuf_size size)))

unfoldable pub check_sizes : System → ConfigMngr → Bool
unfolding validate_socket_buffer_size
check_sizes sys cfg =
    (not (is_positive cfg.socket_buffers_size)
      || validate_socket_buffer_size sys cfg.socket_buffers_size)
    && (not (ltb_ℤ cfg.max_active_instances (bang cfg.working_set_size))
        && ltb_ℤ (add_int cfg.preexecution_window_size cfg.max_active_instances)
            cfg.working_set_size)

-- The loop over the acceptors from `i` on, with `n` left: how many there are, `some none` for one
-- that is wrong, `none` for an assertion that fails.
unfoldable pub count_acceptors : System → (ℕ → AcceptorInfo) → ℕ → ℕ → ℕ → Option (Option ℕ)
count_acceptors sys infos zero i count = some (some count)
count_acceptors sys infos (suc n) i count =
    let ai = infos i in
    let skip = count_acceptors sys infos n (i + 1) count in
    let next = count_acceptors sys infos n (i + 1) (count + 1) in
    assert (leb ai.id 10)
    >> (if ai.id == 0
        then skip
        else assert (ai.id == i)
          >> (if sys.is_address ai.ip_addr && (is_port ai.learners_port && is_port ai.inbound_port)
              then next
              else some none))

-- The last comparison is of `! acceptors_count` and the count, too.
unfoldable pub check_count : ℤ → Option ℕ → Bool
check_count acceptors_count none = false
check_count acceptors_count (some count) = not (
    not (ltb_ℤ (bang acceptors_count) (pos count))
    && not (ltb_ℤ (pos count) (bang acceptors_count)))

-- `some none` is the result -1, and `some (some cfg)` the result 0 with the configuration after it.
unfoldable pub validate_config : System → ConfigMngr → Option (Option ConfigMngr)
unfolding set_defaults check_times check_quorum check_sizes count_acceptors check_count
validate_config sys cfg =
    let cfg' = set_defaults cfg in
    if check_times sys cfg' && (check_quorum cfg' && check_sizes sys cfg')
    then count_acceptors sys cfg'.acc_infos 9 1 0
      >>= (λ count. some (if check_count cfg'.acceptors_count count then some cfg' else none))
    else some none

-- ===== src/Instance.antt =====
-- paxos2/lib/proposer.c and proposer_leader.c: one instance of the proposer's table, its promises
-- and its deadline.
pub mod Promises
pub mod Deadline
use Prim.Native.Nat.{bit_and}
use fds.Prelude.{
  ℕ, ◌+◌, ◌-◌, ◌*◌, ◌/◌, ◌%◌, ◌^◌, List, [], ◌∷◌, Bool, true, false, ◌&&◌, ◌||◌, not, Option, none,
  some, ltb, leb, ◌==◌, if◌then◌else◌, length, bytes_eq,
}
use fds.Messages.{PrepareAck}
use fds.Config.{max_n_of_proposers, u32_mod}

-- `struct timeval`.
pub record Timeval : Type 0 where
  pub tv_sec : ℕ
  pub tv_usec : ℕ

-- `i_status`.
pub data Status : Type 0 where
  empty p1_pending p1_ready p2_pending p2_completed : Status

abbrev pub Value : Type 0
Value = List ℕ

-- `p_inst_info`. A pointer to a wrapper is the value in it: no two pointers reach one wrapper.
pub record InstInfo : Type 0 where
  pub iid : ℕ
  pub status : Status
  pub my_ballot : ℕ
  pub promises_bitvector : ℕ
  pub promises_count : ℕ
  pub p1_value : Option Value
  pub p1_value_ballot : ℕ
  pub p2_value : Option Value
  pub timeout : Timeval

-- FIRST_BALLOT and NEXT_BALLOT, of `unsigned int`.
abbrev pub first_ballot : ℕ → ℕ
first_ballot this_proposer_id = max_n_of_proposers + this_proposer_id

abbrev pub next_ballot : ℕ → ℕ
next_ballot b = (b + max_n_of_proposers) % u32_mod

unfoldable pub pro_clear_instance_info : InstInfo → InstInfo
pro_clear_instance_info ii = record {
  iid = 0;
  status = empty;
  my_ballot = 0;
  promises_bitvector = 0;
  promises_count = 0;
  p1_value = none;
  p1_value_ballot = 0;
  p2_value = none;
  timeout = ii.timeout;
}

-- The value is the one that the instance has: same size, same bytes.
abbrev pub has_value : Option Value → Value → Bool
has_value none v = false
has_value (some w) v = bytes_eq w v

-- The value of a promise, taken if its ballot is the highest so far.
unfoldable pub save_promised_value : InstInfo → PrepareAck → InstInfo
save_promised_value ii pa =
    if length pa.value == 0
    then ii
    else (if leb pa.value_ballot ii.p1_value_ballot
        then ii
        else (if has_value ii.p1_value pa.value
            then record ii { p1_value_ballot = pa.value_ballot }
            else record ii { p1_value = some pa.value; p1_value_ballot = pa.value_ballot }))

-- The acceptor's bit is tested and updated as the code does it: `promises_bitvector &= 1 << id`.
unfoldable pub pro_save_prepare_ack : InstInfo → PrepareAck → ℕ → InstInfo
unfolding save_promised_value
pro_save_prepare_ack ii pa acceptor_id =
    if not (bit_and ii.promises_bitvector (2 ^ acceptor_id) == 0)
    then ii
    else save_promised_value
        (record ii {
          promises_bitvector = bit_and ii.promises_bitvector (2 ^ acceptor_id);
          promises_count = ii.promises_count + 1;
        })
        pa

abbrev pub a_second : ℕ
a_second = 1000000

-- The deadline that `leader_set_expiration` computes from the current time.
unfoldable pub expiration : Timeval → ℕ → Timeval
expiration current_time usec_interval =
    let usec_sum = current_time.tv_usec + usec_interval % a_second in
    let tv_sec = current_time.tv_sec + usec_interval / a_second in
    record {
      tv_sec = if ltb a_second usec_sum then tv_sec + 1 else tv_sec;
      tv_usec = usec_sum % a_second;
    }

unfoldable pub leader_is_expired : Timeval → Timeval → Bool
leader_is_expired deadline time_now =
    ltb deadline.tv_sec time_now.tv_sec
    || ((deadline.tv_sec == time_now.tv_sec) && ltb deadline.tv_usec time_now.tv_usec)

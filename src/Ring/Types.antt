-- ===== src/Ring/Types.antt =====
-- ring_paxos/include/paxos_config.h, lp_utils.h and lib/timers.c: identifiers of commands, and times.
-- Instance numbers are 64 bits wide, and counted here without a wrap.
use fds.Prelude.{ℕ, ◌+◌, ◌%◌, ◌≡◌, Bool, true, ◌&&◌, ◌||◌, ltb, leb, ◌==◌, if◌then◌else◌, arith}

-- `command_id`.
pub record CommandId : Type 0 where
  pub mcaster_id : ℕ
  pub mcaster_incarnation : ℕ
  pub cmd_seqnum : ℕ

unfoldable pub cmd_key_equals : CommandId → CommandId → Bool
cmd_key_equals x y =
    (x.mcaster_id == y.mcaster_id)
    && (x.mcaster_incarnation == y.mcaster_incarnation)
    && (x.cmd_seqnum == y.cmd_seqnum)

-- CMD_KEY_CLEAR
abbrev pub null_key : CommandId
null_key = record { mcaster_id = 0; mcaster_incarnation = 0; cmd_seqnum = 0 }

unfoldable pub cmd_key_is_null : CommandId → Bool
cmd_key_is_null x = (x.mcaster_id == 0) && (x.mcaster_incarnation == 0) && (x.cmd_seqnum == 0)

pub cmd_key_equals→eq : (x y : CommandId) → cmd_key_equals x y ≡ true → x ≡ y
unfolding cmd_key_equals
cmd_key_equals→eq x y h = grind arith

pub cmd_key_equals_refl : (x : CommandId) → cmd_key_equals x x ≡ true
unfolding cmd_key_equals
cmd_key_equals_refl x = ground arith

pub record Timeval : Type 0 where
  pub tv_sec : ℕ
  pub tv_usec : ℕ

abbrev pub no_time : Timeval
no_time = record { tv_sec = 0; tv_usec = 0 }

-- The deadline that is written to `variable`.
unfoldable pub timer_set_timeout : Timeval → Timeval → Timeval
timer_set_timeout current_time interval =
    let tot_usec = current_time.tv_usec + interval.tv_usec in
    if leb 1000000 tot_usec
    then record { tv_sec = current_time.tv_sec + interval.tv_sec + 1; tv_usec = tot_usec % 1000000 }
    else record { tv_sec = current_time.tv_sec + interval.tv_sec; tv_usec = tot_usec }

unfoldable pub timer_is_expired : Timeval → Timeval → Bool
timer_is_expired deadline_time curr_time =
    ltb deadline_time.tv_sec curr_time.tv_sec
    || ((deadline_time.tv_sec == curr_time.tv_sec) && ltb deadline_time.tv_usec curr_time.tv_usec)

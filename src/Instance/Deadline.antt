-- ===== src/Instance/Deadline.antt =====
-- Deadlines: how long an instance may wait.
use fds.Prelude.{ℕ, ◌+◌, ◌*◌, ◌%◌, ◌<◌, ◌≡◌, ◌≢◌, ◌↔◌, true, arith}
use fds.Instance.{Timeval, a_second, expiration, leader_is_expired}

-- A time in microseconds.
abbrev pub micros : Timeval → ℕ
micros t = t.tv_sec * a_second + t.tv_usec

-- At a proper time, the deadline is the interval later, unless the microseconds add up to exactly
-- one second: then the carry is forgotten, and the deadline is a second too early.
pub micros-expiration :
    (now : Timeval) (interval : ℕ)
    → now.tv_usec < a_second
    → (now.tv_usec + interval % a_second ≢ a_second
        → micros (expiration now interval) ≡ micros now + interval)
      × (now.tv_usec + interval % a_second ≡ a_second
          → micros (expiration now interval) + a_second ≡ micros now + interval)
unfolding expiration
micros-expiration now interval h = (λ ne. ground arith, λ e. ground arith)

-- Between proper times, a deadline has expired exactly if it lies before the current time.
leader_is_expired_iff :
    (deadline now : Timeval)
    → deadline.tv_usec < a_second
    → now.tv_usec < a_second
    → (leader_is_expired deadline now ≡ true) ↔ (micros deadline < micros now)
unfolding leader_is_expired
leader_is_expired_iff deadline now h k = (λ e. ground arith, λ e. ground arith)

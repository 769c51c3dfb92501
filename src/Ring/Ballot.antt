-- ===== src/Ring/Ballot.antt =====
-- ring_paxos/lib/util.c: ballots of 32 bits, a sequence number above the identity of a multicaster.
use fds.Prelude.{
  ℕ, ◌+◌, ◌*◌, ◌/◌, ◌%◌, ◌^◌, ◌≤◌, ◌<◌, ◌≡◌, Bool, true, ◌==◌, ◌⊎◌, inl, inr, dec_lt, arith,
}

unfoldable pub make_first_ballot : ℕ → ℕ → ℕ
make_first_ballot acc_id incarnation = (2 ^ 16 + acc_id * 2 ^ 8 + incarnation) % 2 ^ 32

-- `new_seq` is 16 bits wide.
unfoldable pub raise_ballot : ℕ → ℕ → ℕ
raise_ballot current_b ballot_to_beat =
    let new_seq = (ballot_to_beat / 2 ^ 16 % 2 ^ 16 + 1) % 2 ^ 16 in
    (current_b % 2 ^ 16 + new_seq * 2 ^ 16) % 2 ^ 32

unfoldable pub increment_ballot : ℕ → ℕ
increment_ballot b =
    let new_seqnum = (b / 2 ^ 16 % 2 ^ 16 + 1) % 2 ^ 16 in
    (b % 2 ^ 16 + new_seqnum * 2 ^ 16) % 2 ^ 32

unfoldable pub is_my_ballot : ℕ → ℕ → ℕ → Bool
is_my_ballot b acc_id incarnation = b % 2 ^ 16 == (acc_id * 2 ^ 8 + incarnation) % 2 ^ 16

-- For a multicaster whose number and incarnation are bytes, its first ballot is its own, and a
-- ballot of its own raised against a 32-bit ballot stays its own and fits 32 bits. It is above the
-- ballot to beat, unless the sequence number of that is 65535: then the raised number wraps to 0,
-- and the result is below 2 ^ 16.
pub raise_ballot_lem :
    (acc_id incarnation current_b ballot_to_beat : ℕ)
    → acc_id < 256
    → incarnation < 256
    → ballot_to_beat < 2 ^ 32
    → is_my_ballot current_b acc_id incarnation ≡ true
    → (is_my_ballot (make_first_ballot acc_id incarnation) acc_id incarnation ≡ true)
      × (is_my_ballot (raise_ballot current_b ballot_to_beat) acc_id incarnation ≡ true)
      × (raise_ballot current_b ballot_to_beat < 2 ^ 32)
      × ((ballot_to_beat < raise_ballot current_b ballot_to_beat)
          ⊎ ((65535 * 2 ^ 16 ≤ ballot_to_beat) × (raise_ballot current_b ballot_to_beat < 2 ^ 16)))
unfolding make_first_ballot raise_ballot is_my_ballot
raise_ballot_lem acc_id incarnation current_b ballot_to_beat ha hi hb mine = (
  ground arith,
  ground arith,
  omega arith,
  elim (dec_lt ballot_to_beat (65535 * 2 ^ 16)) [
    | yes lt ↦ inl (omega arith)
    | no ge ↦ inr (omega arith, omega arith)
  ],
)

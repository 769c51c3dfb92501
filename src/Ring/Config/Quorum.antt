-- ===== src/Ring/Config/Quorum.antt =====
-- ring_paxos/lib/config_parser.c: what the check of a configuration says of the quorum.
use fds.Prelude.{
  ℕ, suc, ◌^◌, ◌<◌, ◌≡◌, refl, sym, subst, arith, Bool, true, false, ◌&&◌, not, Option, none, some,
  ◌==◌, if◌then◌else◌, ◌>>=◌, Bool-cases, inl, inr,
}
use mathlib.Core.Option
use fds.Prelude.Int.{pos, ltb_ℤ}
use fds.Ring.Config.{
  ConfigMngr, System, bang, int_of_unsigned, set_defaults, check_times, check_quorum, check_sizes,
  count_acceptors, check_count, validate_config,
}

abbrev pub with_quorum : ℕ → ConfigMngr → ConfigMngr
with_quorum q cfg = record cfg { quorum_size = q }

check_quorum-nonzero :
    (cfg : ConfigMngr) (n : ℕ)
    → cfg.acceptors_count ≡ pos (suc n)
    → 0 < cfg.quorum_size
    → cfg.quorum_size < 2 ^ 31
    → check_quorum cfg ≡ true
unfolding check_quorum
check_quorum-nonzero cfg n e h s =
    subst
      (λ a. (not (cfg.quorum_size == 0) && ltb_ℤ (bang a) (int_of_unsigned cfg.quorum_size)) ≡ true)
      (sym e) (ground arith)

-- The result, where the test of the quorum is not in it.
answer :
    Bool → Bool → Option (Option ℕ) → (Option ℕ → Bool) → ConfigMngr → Option (Option ConfigMngr)
answer t s k f d =
    if t && (true && s) then k >>= (λ count. some (if f count then some d else none)) else some none

answer-map :
    (g : ConfigMngr → ConfigMngr) (t s : Bool) (k : Option (Option ℕ)) (f : Option ℕ → Bool)
    (d : ConfigMngr)
    → answer t s k f (g d) ≡ Option.map (Option.map g) (answer t s k f d)
unfolding answer
answer-map g false s k f d = refl
answer-map g true false k f d = refl
answer-map g true true none f d = refl
answer-map g true true (some c) f d = elim (Bool-cases (f c)) [
  | inl t ↦ rw t refl
  | inr t ↦ rw t refl
]

-- A configuration with at least one acceptor and a quorum above 0 and below 2 ^ 31 is accepted or
-- refused, with the same defaults, like the one with any other such quorum: the quorum is not
-- compared with the number of acceptors.
pub quorum_not_compared :
    (sys : System) (cfg : ConfigMngr) (n q : ℕ)
    → cfg.acceptors_count ≡ pos (suc n)
    → 0 < cfg.quorum_size
    → cfg.quorum_size < 2 ^ 31
    → 0 < q
    → q < 2 ^ 31
    → validate_config sys (with_quorum q cfg)
      ≡ Option.map (Option.map (with_quorum q)) (validate_config sys cfg)
unfolding validate_config answer set_defaults check_times check_sizes
quorum_not_compared sys cfg n q e h s h' s' =
    let d = set_defaults cfg in
    let k = check_quorum-nonzero d n e h s in
    let k' = check_quorum-nonzero (with_quorum q d) n e h' s' in
    rw (k, k')
      (answer-map (with_quorum q) (check_times sys d) (check_sizes sys d)
        (count_acceptors sys d.acc_infos 9 1 0) (check_count d.acceptors_count) d)

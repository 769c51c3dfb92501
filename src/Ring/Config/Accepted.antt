-- ===== src/Ring/Config/Accepted.antt =====
-- ring_paxos/lib/config_parser.c: what holds of a configuration that is accepted.
use fds.Prelude.{
  ℕ, ◌+◌, ◌%◌, ◌^◌, ◌<◌, ◌≡◌, refl, sym, ap, ◌∙◌, subst, arith, ltb, true, ◌&&◌, not, none, some,
  and-left, and-right, Ensures, ensures_if, ensures_after,
}
use fds.Prelude.Int.{ℤ, pos, negsuc, pos_part, neg_part, ltb_ℤ}
use fds.Ring.Config.{
  add_int, ConfigMngr, System, nonzero_or_default, bang, set_defaults, check_times, check_quorum,
  check_sizes, count_acceptors, check_count, validate_config,
}
use fds.Ring.Mcaster.Storage.{McasterConfig}
use fds.Ring.Mcaster.Inv.{IsConfig}

-- The result 0 comes with the defaults and after all checks.
module _ (sys : System) (cfg : ConfigMngr) where
  Checked : ConfigMngr → Type 0
  Checked cfg' =
      (cfg' ≡ set_defaults cfg)
      × (check_quorum (set_defaults cfg) ≡ true)
      × (check_sizes sys (set_defaults cfg) ≡ true)

  validate_config-Checked : Ensures (validate_config sys cfg) (λ o. Ensures o Checked)
  unfolding validate_config Checked
  validate_config-Checked =
      let d = set_defaults cfg in
      ensures_if (λ o. Ensures o Checked)
        (check_times sys d && (check_quorum d && check_sizes sys d)) _ _
        (λ t.
          let q = and-right (check_times sys d) _ t in
          ensures_after (λ o. Ensures o Checked) (count_acceptors sys d.acc_infos 9 1 0) _
            (λ count.
              ensures_if Checked (check_count d.acceptors_count count) (some d) none
                (λ _. (refl, and-left (check_quorum d) _ q, and-right (check_quorum d) _ q))
                (λ _. tt)))
        (λ _. tt)

  accepted : (cfg' : ConfigMngr) → validate_config sys cfg ≡ some (some cfg') → Checked cfg'
  accepted cfg' e = subst (λ o. Ensures o (λ o. Ensures o Checked)) e validate_config-Checked

nonzero_or_default-pos :
    (i : ℤ) (def : ℕ)
    → 0 < def
    → (neg_part (nonzero_or_default i def) ≡ 0) × (0 < pos_part (nonzero_or_default i def))
nonzero_or_default-pos (pos n) def h = ground arith
nonzero_or_default-pos (negsuc n) def h = ground arith

default-pos : (i : ℤ) (def n : ℕ) → 0 < def → nonzero_or_default i def ≡ pos n → 0 < n
default-pos i def n h e = subst (λ z. 0 < pos_part z) e ((nonzero_or_default-pos i def h).1)

add_int-fits : (p q : ℕ) → p + q < 2 ^ 31 → add_int (pos p) (pos q) ≡ pos (p + q)
add_int-fits p q h =
    let e : (p % 2 ^ 32 + q % 2 ^ 32) % 2 ^ 32 ≡ p + q = omega arith in
    let t : ltb (p + q) (2 ^ 31) ≡ true = ground arith in rw (e, t) refl

sum-lt :
    (x y z : ℤ) (p q w : ℕ)
    → x ≡ pos p
    → y ≡ pos q
    → z ≡ pos w
    → p + q < 2 ^ 31
    → ltb_ℤ (add_int x y) z ≡ true
    → p + q < w
sum-lt x y z p q w ex ey ez fits h =
    let h1 = subst (λ x. ltb_ℤ (add_int x y) z ≡ true) ex h in
    let h2 = subst (λ y. ltb_ℤ (add_int (pos p) y) z ≡ true) ey h1 in
    let h3 = subst (λ i. ltb_ℤ i z ≡ true) (add_int-fits p q fits) h2 in
    let h4 : ltb_ℤ (pos (p + q)) (pos w) ≡ true = subst (λ z. ltb_ℤ (pos (p + q)) z ≡ true) ez h3 in
    ground arith

is_config :
    (mc : McasterConfig)
    → mc.preexecution_window_size + mc.max_active_instances < mc.working_set_size
    → mc.working_set_size < 2 ^ 31
    → IsConfig mc
is_config mc h small = record {
  windows = omega arith;
  positive = omega arith;
  small = omega arith;
  small' = omega arith;
}

-- Let a configuration be accepted, with a working set below 2 ^ 31 and two windows whose sum is
-- below 2 ^ 31, so that an `int` holds it. Then the sizes of the two windows and the number of
-- instances that are opened at a time are above 0, the windows together are less than the working
-- set, and a multicaster with these sizes has the configuration that its invariant asks for.
pub validate_config-IsConfig :
    (sys : System) (cfg cfg' : ConfigMngr) (mc : McasterConfig)
    → validate_config sys cfg ≡ some (some cfg')
    → cfg'.working_set_size ≡ pos mc.working_set_size
    → cfg'.max_active_instances ≡ pos mc.max_active_instances
    → cfg'.preexecution_window_size ≡ pos mc.preexecution_window_size
    → cfg'.max_p2_open_per_iteration ≡ pos mc.max_p2_open_per_iteration
    → mc.working_set_size < 2 ^ 31
    → mc.preexecution_window_size + mc.max_active_instances < 2 ^ 31
    → (0 < mc.max_active_instances)
      × (0 < mc.preexecution_window_size)
      × (0 < mc.max_p2_open_per_iteration)
      × (mc.preexecution_window_size + mc.max_active_instances < mc.working_set_size)
      × IsConfig mc
unfolding Checked set_defaults check_sizes
validate_config-IsConfig sys cfg cfg' mc e a b c d small sum_fits =
    let (same, q, sizes) = accepted sys cfg cfg' e in
    let a' = ap ConfigMngr.working_set_size (sym same) ∙ a in
    let b' = ap ConfigMngr.max_active_instances (sym same) ∙ b in
    let c' = ap ConfigMngr.preexecution_window_size (sym same) ∙ c in
    let d' = ap ConfigMngr.max_p2_open_per_iteration (sym same) ∙ d in
    let pb = default-pos cfg.max_active_instances 25 mc.max_active_instances (omega arith) b' in
    let pc =
      default-pos cfg.preexecution_window_size 50 mc.preexecution_window_size (omega arith) c' in
    let pd =
      default-pos cfg.max_p2_open_per_iteration 10 mc.max_p2_open_per_iteration (omega arith) d' in
    let fits =
      and-right
        (not (
          ltb_ℤ (set_defaults cfg).max_active_instances (bang (set_defaults cfg).working_set_size)))
        _ (and-right _ _ sizes) in
    let sum = sum-lt _ _ _ _ _ _ c' b' a' sum_fits fits in (pb, pc, pd, sum, is_config mc sum small)

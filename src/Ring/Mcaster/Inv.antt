-- ===== src/Ring/Mcaster/Inv.antt =====
-- ring_paxos/ring-paxos/acceptor_helpers_mcaster.c: what holds of the multicaster between two events.
use fds.Prelude.{ℕ, ◌+◌, ◌*◌, ◌^◌, ◌≤◌, ◌<◌, ◌≡◌, refl, Option, List, arith}
use fds.Ring.Queue.{LpQueue}
use fds.Ring.Mcaster.Storage.{McasterConfig, McasterRecord, mcaster_storage_init}
use fds.Ring.Mcaster.State.{Mcaster, multicaster_init}
use fds.Ring.Mcaster.At.{At}
use fds.Ring.Mcaster.Slots.{Slots, unused}

-- The configuration: the two windows fit in the circular buffer.
pub record IsConfig (cfg : McasterConfig) : Type 0 where
  pub windows : cfg.preexecution_window_size + cfg.max_active_instances ≤ cfg.working_set_size * 2
  pub positive : 0 < cfg.working_set_size
  pub small : cfg.preexecution_window_size < 2 ^ 31
  pub small' : cfg.max_active_instances < 2 ^ 31

-- Of the circular buffer's size, the counter and the three bounds.
pub record IsBounded (cfg : McasterConfig) (n r c o p : ℕ) : Type 0 where
  pub sized : n ≡ cfg.working_set_size * 2
  pub closed_le : c ≤ o
  pub counted : r + o ≡ p
  pub ahead : r ≤ cfg.preexecution_window_size
  pub active : o ≤ c + cfg.max_active_instances

pub record Inv (cfg : McasterConfig) (acc : Mcaster) : Type 0 where
  pub bounded :
      IsBounded cfg acc.msm.array_size acc.p1_ready_count acc.highest_closed_iid
        acc.highest_open_iid acc.p1_highest_open
  pub slots :
      Slots acc.msm.array_size acc.msm.instances_array acc.highest_closed_iid acc.highest_open_iid
        acc.p1_highest_open

pub Inv-At :
    (cfg : McasterConfig) (acc : Mcaster)
    → Inv cfg acc
    → At acc.msm.array_size acc.p1_ready_count acc.highest_closed_iid acc.highest_open_iid
        acc.p1_highest_open acc.highest_closed_iid acc.highest_open_iid acc.p1_highest_open acc
Inv-At cfg acc v = record {
  sized = refl;
  ready = refl;
  closed = refl;
  opened = refl;
  begun = refl;
  slots = v.slots;
}

Slots-eq :
    (n : ℕ) (arr : ℕ → McasterRecord) (c o p c' o' p' : ℕ)
    → c' ≡ c
    → o' ≡ o
    → p' ≡ p
    → Slots n arr c o p
    → Slots n arr c' o' p'
Slots-eq n arr c o p c' o' p' a b d s = rw (a, b, d) s

pub At-Inv :
    (cfg : McasterConfig) (n r c o p : ℕ) (acc : Mcaster)
    → IsBounded cfg n r c o p
    → At n r c o p c o p acc
    → Inv cfg acc
At-Inv cfg n r c o p acc b a = record {
  bounded = record {
    sized = omega (arith, b.sized, a.sized);
    closed_le = omega (arith, b.closed_le, a.closed, a.opened);
    counted = omega (arith, b.counted, a.ready, a.opened, a.begun);
    ahead = omega (arith, b.ahead, a.ready);
    active = omega (arith, b.active, a.opened, a.closed);
  };
  slots =
      Slots-eq acc.msm.array_size acc.msm.instances_array c o p acc.highest_closed_iid
        acc.highest_open_iid acc.p1_highest_open a.closed a.opened a.begun a.slots;
}

pub init-Inv :
    (cfg : McasterConfig) (cvm : LpQueue) (heap : ℕ → Option (List ℕ))
    → Inv cfg (multicaster_init cfg cvm heap)
unfolding multicaster_init mcaster_storage_init
init-Inv cfg cvm heap = record {
  bounded = record {
    sized = refl;
    closed_le = omega arith;
    counted = refl;
    ahead = omega arith;
    active = omega arith;
  };
  slots = λ i h h'. unused h refl (omega (arith, h')) refl;
}

-- ===== src/Ring/Acceptor/Dispatch/Promises.antt =====
-- ring_paxos/ring-paxos/acceptor_events.c: the promises under every message.
use fds.Prelude.{ℕ, Bool, true, false, Ensures, ensures_bind, ensures_map}
use fds.Ring.Acceptor.State.{RingAcceptor, Phase1Msg}
use fds.Ring.Acceptor.Dispatch.{
  AcceptorMsg, predecessor_phase1, predecessor_phase1_range, predecessor_phase2, multicast_cmdmap,
  multicast_acceptance, multicast_phase2, on_acceptor_msg,
}
use fds.Ring.Acceptor.Grows.{Grown, Grown-refl, Moved}
use fds.Ring.Acceptor.Phase1.Promises.{phase1-Grown, range-Grown}
use fds.Ring.Acceptor.Phase2.Votes.{Voted, phase2-Voted}
use fds.Ring.Acceptor.Mapping.Promises.{cmdmap-Grown}

-- Whatever message an acceptor handles without a stop, and whatever was in its buffers and on its
-- heap: its storage keeps its size, every slot holds the same or a later instance, the promised
-- ballot of an instance that stays never falls, and a record whose accepted ballot was not above
-- the promised one leaves one of that kind.
pub on_acceptor_msg-Grown :
    (first_in_ring : Bool) (stale : Phase1Msg) (address : ℕ) (msg : AcceptorMsg)
    (acc : RingAcceptor)
    → Ensures (on_acceptor_msg first_in_ring stale address msg acc) (Moved acc)
unfolding on_acceptor_msg
on_acceptor_msg-Grown first stale address (predecessor_phase1 msg) acc = phase1-Grown stale msg acc
on_acceptor_msg-Grown first stale address (predecessor_phase1_range msg) acc =
    range-Grown stale msg acc
on_acceptor_msg-Grown first stale address (predecessor_phase2 msg) acc =
    ensures_map (Moved acc) (Voted msg acc) _ (λ r v. v.grown) (phase2-Voted msg acc)
on_acceptor_msg-Grown first stale address (multicast_cmdmap msg) acc =
    ensures_bind (Moved acc) (Grown acc) _ _ (cmdmap-Grown address msg acc) (λ acc1 g. g)
on_acceptor_msg-Grown first stale address (multicast_acceptance i key) acc = Grown-refl acc
on_acceptor_msg-Grown true stale address (multicast_phase2 msg) acc =
    ensures_map (Moved acc) (Voted msg acc) _ (λ r v. v.grown) (phase2-Voted msg acc)
on_acceptor_msg-Grown false stale address (multicast_phase2 msg) acc = Grown-refl acc

-- ===== src/Ring/Mcaster/State.antt =====
-- ring_paxos/ring-paxos/acceptor.c: the state of the multicaster; the routines of
-- ring-paxos/acceptor_helpers_mcaster.c that send a message about one instance.
-- The pointer `mir` of the code is the number of an instance, whose record is `mir_of`.
use fds.Prelude.{
  ℕ, zero, suc, ◌+◌, ◌-◌, ◌%◌, ◌^◌, List, [], ◌∷◌, ◌++◌, true, false, not, Option, none, some, leb,
  ◌==◌, ◌>>=◌, ◌>>◌, assert,
}
use fds.Ring.Types.{CommandId, Timeval, timer_set_timeout, no_time}
use fds.Ring.Acceptor.State.{Phase1Msg, Phase1RangeMsg, Phase2Msg}
use fds.Ring.Acceptor.Mapping.{CmdmapMsg}
use fds.Ring.Queue.{LpQueue}
use fds.Ring.Mcaster.Storage.{
  p1_pending, p2_pending, McasterRecord, McasterStorage, McasterConfig, is_done, mir_at, set_mir,
  read_value, mcaster_storage_get, mcaster_storage_init,
}

-- The messages that `net_send_udp` is called with, and the flushes of its buffers.
pub data Sent : Type 0 where
  ring_phase1 : Phase1Msg → Sent
  ring_phase1_range : Phase1RangeMsg → Sent
  mcast_phase2 : Phase2Msg → Sent
  mcast_command_map : CmdmapMsg → Sent
  mcast_acceptance : ℕ → CommandId → Sent
  flush_mcast : Sent
  flush_ring : Sent

-- `sent` holds what the two senders were given, in order. `cvm` is that of `msm`, and
-- `p1_pending_count` is never used.
pub record Mcaster : Type 0 where
  pub msm : McasterStorage
  pub mcaster_clock : Timeval
  pub p1_ready_count : ℕ
  pub p1_highest_open : ℕ
  pub highest_closed_iid : ℕ
  pub highest_open_iid : ℕ
  pub sent : List Sent

unfoldable pub multicaster_init : McasterConfig → LpQueue → (ℕ → Option (List ℕ)) → Mcaster
unfolding mcaster_storage_init
multicaster_init cfg cvm heap = record {
  msm = mcaster_storage_init cfg cvm heap;
  mcaster_clock = no_time;
  p1_ready_count = 0;
  p1_highest_open = 0;
  highest_closed_iid = 0;
  highest_open_iid = 0;
  sent = [];
}

abbrev pub mir_of : Mcaster → ℕ → McasterRecord
mir_of acc i = mir_at acc.msm i

abbrev pub put_mir : ℕ → McasterRecord → Mcaster → Mcaster
put_mir i mir acc = record acc { msm = set_mir i mir acc.msm }

abbrev pub send : Sent → Mcaster → Mcaster
send m acc = record acc { sent = acc.sent ++ m ∷ [] }

abbrev pub with_storage : Mcaster → McasterStorage → Mcaster
with_storage acc msm = record acc { msm = msm }

abbrev pub get_mir : ℕ → Mcaster → Option Mcaster
get_mir i acc = mcaster_storage_get i acc.msm >>= λ msm. some (with_storage acc msm)

-- Counters of 32 bits.
abbrev pub plus32 : ℕ → ℕ → ℕ
plus32 a b = (a + b) % 2 ^ 32

abbrev pub minus32 : ℕ → ℕ → ℕ
minus32 a b = (a + (2 ^ 32 - b % 2 ^ 32)) % 2 ^ 32

-- `for(i = from; i <= to; i++)` with a counter of 32 bits and a bound of 64 bits. The rounds are as
-- many as the counter has values from its start to the bound; `none` is a loop that does not end.
unfoldable pub for_rounds : (ℕ → Mcaster → Option Mcaster) → ℕ → ℕ → ℕ → Mcaster → Option Mcaster
for_rounds step to zero i acc = none
for_rounds step to (suc n) i acc = elim (leb i to) [
  | true ↦ step i acc >>= λ acc. for_rounds step to n ((i + 1) % 2 ^ 32) acc
  | false ↦ some acc
]

unfoldable pub for_range : (ℕ → Mcaster → Option Mcaster) → ℕ → ℕ → Mcaster → Option Mcaster
unfolding for_rounds
for_range step from to acc = let i = from % 2 ^ 32 in for_rounds step to (suc (to + 1 - i)) i acc

abbrev pub mcaster_update_wallclock : Timeval → Mcaster → Mcaster
mcaster_update_wallclock now acc = record acc { mcaster_clock = now }

-- `stale` is the key that `m` holds, which is not written.
unfoldable pub mcaster_do_phase1 : McasterConfig → CommandId → ℕ → Mcaster → Option Mcaster
unfolding timer_set_timeout
mcaster_do_phase1 cfg stale i acc =
    let mir = mir_of acc i in
    assert (not (mir.ballot == 0))
    >> some (
        put_mir i
          (record mir {
            timeout = timer_set_timeout acc.mcaster_clock cfg.p1_interval;
            status = p1_pending;
          })
          (send
            (ring_phase1 (record {
              inst_number = mir.inst_number;
              ballot = mir.ballot;
              promises_count = 0;
              highest_accepted_ballot = 0;
              highest_promised_ballot = 0;
              cmd_key = stale;
              cmd_value = [];
            }))
            acc))

abbrev pub mcaster_do_phase1_range : ℕ → ℕ → ℕ → Mcaster → Mcaster
mcaster_do_phase1_range from to b acc =
    send (ring_phase1_range (record { from = from; to = to; ballot = b; promises_count = 0 })) acc

unfoldable pub mcaster_do_phase2 : McasterConfig → ℕ → Mcaster → Mcaster
unfolding timer_set_timeout
mcaster_do_phase2 cfg i acc =
    let mir = mir_of acc i in
    put_mir i
      (record mir {
        status = p2_pending;
        timeout = timer_set_timeout acc.mcaster_clock cfg.p2_interval;
      })
      (send
        (mcast_phase2 (record {
          inst_number = mir.inst_number;
          ballot = mir.ballot;
          accepts_count = 0;
          cmd_key = mir.assigned_cmd_key;
        }))
        acc)

unfoldable pub mcaster_broadcast_mapping : McasterConfig → ℕ → Mcaster → Option Mcaster
unfolding timer_set_timeout read_value
mcaster_broadcast_mapping cfg i acc =
    let mir = mir_of acc i in
    read_value mir.assigned_cmd_value mir.assigned_cmd_size acc.msm >>= λ value. some (
      put_mir i
        (record mir {
          repeat_cmdmap_timeout =
              timer_set_timeout acc.mcaster_clock cfg.retransmit_request_interval;
        })
        (send
          (mcast_command_map (record {
            inst_number = mir.inst_number;
            cmd_key = mir.assigned_cmd_key;
            cmd_value = value;
          }))
          acc))

unfoldable pub mcaster_broadcast_acceptance : ℕ → Mcaster → Option Mcaster
mcaster_broadcast_acceptance i acc =
    let mir = mir_of acc i in
    assert (is_done mir.status)
    >> some (send (mcast_acceptance mir.inst_number mir.assigned_cmd_key) acc)

-- ===== src/Leader/Deliver/Ended.antt =====
-- paxos2/lib/proposer_leader.c, `leader_shutdown`: what the end of a leadership leaves.
use fds.Prelude.{ℕ, zero, suc, ◌+◌, ◌≡◌, List, [], ◌++◌, not, none, if◌then◌else◌}
use fds.Instance.{InstInfo, Value, empty}
use fds.Leader.State.{Proposer, pro_index, pro_instance, is_p2_completed, vh_push_back_value}

-- The value of an instance whose phase 2 is not complete.
abbrev pub held : InstInfo → List Value
held ii = if not (is_p2_completed ii.status) then vh_push_back_value ii.p2_value [] else []

-- The values of a run of instances, those of later instances first.
abbrev pub unfinished : ℕ → ℕ → (ℕ → InstInfo) → List Value
unfinished zero i table = []
unfinished (suc n) i table = unfinished n (i + 1) table ++ held (table (pro_index i))

-- The instance's record is reset.
abbrev pub IsCleared : Proposer → ℕ → Type 0
IsCleared st i =
    ((pro_instance st i).status ≡ empty)
    × ((pro_instance st i).p1_value ≡ none)
    × ((pro_instance st i).p2_value ≡ none)

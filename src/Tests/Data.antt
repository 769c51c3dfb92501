-- ===== src/Tests/Data.antt =====
-- A database of records in a table, and the states and messages that the tests use.
use fds.Prelude.{
  ℕ, ◌≡◌, [], ◌∷◌, false, Option, none, some, ◌==◌, if◌then◌else◌, update, Bool-cases, inl, inr,
}
use fds.Messages.{PrepareReq, PrepareAck, AcceptReq, AcceptAck}
use fds.Storage.{Db, GetResult, found, not_found}
use fds.Acceptor.{Acceptor}

abbrev pub Table : Type 0
Table = ℕ → Option AcceptAck

abbrev pub to_result : Option AcceptAck → GetResult
to_result none = not_found
to_result (some r) = found r

pub get_table-put :
    (i j : ℕ) (r : AcceptAck) (s : Table)
    → to_result (update s i (some r) j) ≡ (if i == j then found r else to_result (s j))
get_table-put i j r s = elim (Bool-cases (i == j)) [ inl e ↦ rw e | inr e ↦ rw e ]

abbrev pub table_db : Db
table_db = record {
  Store = Table;
  get = λ i s. to_result (s i);
  put = λ i r s. update s i (some r);
  get-put = get_table-put;
}

abbrev pub new_acceptor : Acceptor table_db
new_acceptor = record { this_acceptor_id = 1; store = λ i. none; highest_accepted_iid = 0 }

abbrev pub req1 : PrepareReq
req1 = record { iid = 1; ballot = 11 }

abbrev pub acc1 : AcceptReq
acc1 = record { iid = 1; ballot = 11; value = 7 ∷ 8 ∷ [] }

-- The record of instance 1 after `acc1`.
abbrev pub rec1 : AcceptAck
rec1 = record { iid = 1; ballot = 11; value_ballot = 11; is_final = false; value = 7 ∷ 8 ∷ [] }

abbrev pub used_acceptor : Acceptor table_db
used_acceptor = record {
  this_acceptor_id = 1;
  store = update (λ i. none) 1 (some rec1);
  highest_accepted_iid = 1;
}

-- A promise for instance 1 and ballot 11.
abbrev pub promise1 : PrepareAck
promise1 = record { iid = 1; ballot = 11; value_ballot = 0; value = [] }

abbrev pub promise2 : PrepareAck
promise2 = record { iid = 1; ballot = 11; value_ballot = 5; value = 3 ∷ [] }

-- ===== src/Storage.antt =====
-- paxos2/lib/acceptor_stable_storage.c: the records of the instances, in Berkeley DB.
-- The database is a parameter: what its `get` and `put` are documented to do is the record `Db`.
-- A `put` that fails stops the process (`assert(result == 0)`): the model is of runs where it
-- succeeds. `record_buffer` is the record that a function returns.
use fds.Prelude.{ℕ, ◌≡◌, List, [], ◌∷◌, true, false, Option, none, some, ◌==◌, if◌then◌else◌, arith}
use fds.Messages.{PrepareReq, AcceptReq, AcceptAck, Event, stored}

-- The results of `DB->get`: 0, DB_NOTFOUND, DB_KEYEMPTY or another error.
pub data GetResult : Type 0 where
  found : AcceptAck → GetResult
  not_found key_empty failed : GetResult

-- `DB->get` and `DB->put` on a database of records by instance id.
pub record Db : Type 1 where
  pub Store : Type 0
  pub get : ℕ → Store → GetResult
  pub put : ℕ → AcceptAck → Store → Store
  -- `put` replaces the record under its key and touches no other.
  pub get-put :
      (i j : ℕ) (r : AcceptAck) (s : Store)
      → get j (put i r s) ≡ (if i == j then found r else get j s)

-- What is written into `record_buffer`.
abbrev pub accept_record : AcceptReq → AcceptAck
accept_record ar = record {
  iid = ar.iid;
  ballot = ar.ballot;
  value_ballot = ar.ballot;
  is_final = false;
  value = ar.value;
}

abbrev pub prepare_record : PrepareReq → Option AcceptAck → AcceptAck
prepare_record pr none = record {
  iid = pr.iid;
  ballot = pr.ballot;
  value_ballot = 0;
  is_final = false;
  value = [];
}
prepare_record pr (some rec) = record rec { ballot = pr.ballot }

abbrev pub final_record : List ℕ → ℕ → ℕ → AcceptAck
final_record value iid ballot = record {
  iid = iid;
  ballot = ballot;
  value_ballot = ballot;
  is_final = true;
  value = value;
}

module _ (d : Db) where
  open d use {Store, get, put, get-put}

  -- A missing record and a read error are both NULL. The assertion that the record has the instance's
  -- id is left out: it holds for every store of the acceptor's invariant (Acceptor/Inv), and on
  -- any other the code stops there.
  unfoldable pub stablestorage_get_record : ℕ → Store → Option AcceptAck
  stablestorage_get_record iid s = elim (get iid s) [
    | found rec ↦ some rec
    | not_found ↦ none
    | key_empty ↦ none
    | failed ↦ none
  ]

  -- The record written, the new store, and the write as an event.
  unfoldable pub stablestorage_save_accept : AcceptReq → Store → AcceptAck × Store × List Event
  stablestorage_save_accept ar s =
      let rec = accept_record ar in (rec, put ar.iid rec s, stored rec ∷ [])

  unfoldable pub stablestorage_save_prepare :
      PrepareReq → Option AcceptAck → Store → AcceptAck × Store × List Event
  stablestorage_save_prepare pr old s =
      let rec = prepare_record pr old in (rec, put pr.iid rec s, stored rec ∷ [])

  unfoldable pub stablestorage_save_final_value :
      List ℕ → ℕ → ℕ → Store → AcceptAck × Store × List Event
  stablestorage_save_final_value value iid ballot s =
      let rec = final_record value iid ballot in (rec, put iid rec s, stored rec ∷ [])

  pub get_record-put :
      (i j : ℕ) (r : AcceptAck) (s : Store)
      → stablestorage_get_record j (put i r s)
        ≡ (if i == j then some r else stablestorage_get_record j s)
  unfolding stablestorage_get_record
  get_record-put i j r s = ground (arith, get-put i j r s)

-- ===== src/Values/Queue.antt =====
-- paxos2/lib/proposer_values_handler.c: the linked list holds a queue of values, that takes values at
-- its end, gives them from its front, and takes one back at its front.
use fds.Prelude.{
  ℕ, zero, suc, ◌+◌, ◌-◌, ◌<◌, ◌≤◌, ◌≡◌, refl, sym, ap, ap₂, subst, ◌∙◌, List, [], ◌∷◌, ◌++◌, true,
  false, Option, none, some, if◌then◌else◌, ltb, lt→ltb, ◌==◌, length, length-append, update,
  update_same, arith,
}
use mathlib.Core.List.{map-append}
use fds.Config.{leader_max_queue_length}
use fds.Values.{
  Wrapper, Pending, vh_wrap_value, set_next, is_empty, points_to, vh_enqueue_value,
  vh_get_next_pending, vh_push_back_value, vh_shutdown,
}
use fds.Values.Chain.{
  Links, last, IsFresh, IsList, values_at, Links-update, values_at-update, last-IsFresh,
  last-append, IsDistinct-append, Links-append, values_at-set_next, Holds, last_of, last-cons,
  wrapped,
}

enqueue-first :
    (p : ℕ) (value : List ℕ) (st : Pending)
    → IsList st []
    → (st' : Pending) × (vh_enqueue_value p value st ≡ some st') × Holds st' (p ∷ []) (value ∷ [])
unfolding vh_enqueue_value
enqueue-first p value st l = (
  record st {
    heap = vh_wrap_value p value st.heap;
    vh_list_head = some p;
    vh_list_tail = some p;
    vh_list_size = 1;
  },
  ground arith,
  record {
    list = record {
      linked = (refl, ap (λ (w : Wrapper). w.next) (wrapped p value st.heap));
      ended = refl;
      distinct = (tt, tt);
      counted = refl;
    };
    values = ap (λ (w : Wrapper). w.value ∷ []) (wrapped p value st.heap);
  },
)

enqueue-next :
    (p q : ℕ) (ps : List ℕ) (value : List ℕ) (st : Pending)
    → IsList st (q ∷ ps)
    → IsFresh p (q ∷ ps)
    → length (q ∷ ps) ≤ leader_max_queue_length
    → (st' : Pending) × (vh_enqueue_value p value st ≡ some st')
      × Holds st' ((q ∷ ps) ++ p ∷ []) (values_at st.heap (q ∷ ps) ++ value ∷ [])
unfolding vh_enqueue_value
enqueue-next p q ps value st l f h =
    let t = last_of q ps in
    let heap = vh_wrap_value p value st.heap in
    (
      record st {
        heap = set_next heap t (some p);
        vh_list_tail = some p;
        vh_list_size = st.vh_list_size + 1;
      },
      ground (arith, l.ended ∙ last-cons q ps),
      record {
        list = record {
          linked =
              Links-append heap p t (q ∷ ps) st.vh_list_head f l.distinct
                (ap (λ (w : Wrapper). w.next) (wrapped p value st.heap)) (last-cons q ps)
                (Links-update st.heap p _ (q ∷ ps) st.vh_list_head f l.linked);
          ended = sym (last-append (q ∷ ps) p);
          distinct = IsDistinct-append (q ∷ ps) p f l.distinct;
          counted = omega (arith, l.counted, length-append (q ∷ ps) (p ∷ []));
        };
        values =
            values_at-set_next heap t (some p) ((q ∷ ps) ++ p ∷ [])
            ∙ map-append (λ r. (heap r).value) (q ∷ ps) (p ∷ [])
            ∙ ap₂ ◌++◌
                (values_at-update st.heap p (record { value = value; next = none }) (q ∷ ps) f)
                (ap (λ (w : Wrapper). w.value ∷ []) (wrapped p value st.heap));
      },
    )

-- A value submitted to a list of at most LEADER_MAX_QUEUE_LENGTH values is put at its end, in the
-- wrapper newly allocated; on a longer list it is dropped and counted, and the list unchanged.
pub vh_enqueue_value_lem :
    (p : ℕ) (ps : List ℕ) (value : List ℕ) (st : Pending)
    → IsList st ps
    → IsFresh p ps
    → (length ps ≤ leader_max_queue_length
        → (st' : Pending) × (vh_enqueue_value p value st ≡ some st')
          × Holds st' (ps ++ p ∷ []) (values_at st.heap ps ++ value ∷ []))
      × (leader_max_queue_length < length ps
          → vh_enqueue_value p value st ≡ some (record st { dropped_count = st.dropped_count + 1 }))
unfolding vh_enqueue_value
vh_enqueue_value_lem p [] value st l f =
    (λ _. enqueue-first p value st l, λ h. absurd (omega arith))
vh_enqueue_value_lem p (q ∷ ps) value st l f = (
  enqueue-next p q ps value st l f,
  λ h.
      let e : ltb leader_max_queue_length st.vh_list_size ≡ true = lt→ltb _ _ (rw l.counted h) in
      rw e,
)

abbrev popped : ℕ → List ℕ → Pending → Pending
popped p rest st = record st {
  vh_list_head = (st.heap p).next;
  vh_list_tail = last rest;
  vh_list_size = st.vh_list_size - 1;
}

tail-popped :
    (p : ℕ) (rest : List ℕ)
    → IsFresh p rest
    → (if points_to (last (p ∷ rest)) p then none else last (p ∷ rest)) ≡ last rest
tail-popped p [] f = let e : (p == p) ≡ true = ground arith in rw e
tail-popped p (q ∷ rest) f =
    let t = last_of q rest in
    let ne = last-IsFresh p t (q ∷ rest) f (last-cons q rest) in
    let e : (t == p) ≡ false = ground arith in rw (last-cons q rest, e)

-- What a pop from the list of the wrappers at `ps` returns.
abbrev pub Pops : Pending → List ℕ → Option (Option ℕ × Pending) → Type 0
Pops st [] r = r ≡ some (none, st)
Pops st (p ∷ rest) r =
    (st' : Pending) × (r ≡ some (some p, st'))
    × Holds st' rest (values_at st.heap rest)
    × (st'.heap ≡ st.heap)

-- From an empty list NULL is popped and the state is unchanged. From another the first wrapper is
-- popped, and the list of the others is left, on the same heap. Nothing is read through NULL.
pub vh_get_next_pending_lem :
    (st : Pending) (ps : List ℕ) → IsList st ps → Pops st ps (vh_get_next_pending st)
unfolding vh_get_next_pending
vh_get_next_pending_lem st [] l = ground arith
vh_get_next_pending_lem st (p ∷ rest) l =
    let head = l.linked.0 in
    let tail = tail-popped p rest l.distinct.0 in
    let e : is_empty st ≡ false = ground arith in
    (
      popped p rest st,
      rw (e, head, l.ended, tail),
      record {
        list = record {
          linked = l.linked.1;
          ended = refl;
          distinct = l.distinct.1;
          counted = omega (arith, l.counted);
        };
        values = refl;
      },
      refl,
    )

pushed-Holds :
    (p size : ℕ) (ps : List ℕ) (st : Pending) (tail : Option ℕ)
    → IsList st ps
    → IsFresh p ps
    → tail ≡ last (p ∷ ps)
    → size ≡ suc (length ps)
    → Holds
        (record st {
          heap = set_next st.heap p st.vh_list_head;
          vh_list_head = some p;
          vh_list_tail = tail;
          vh_list_size = size;
        })
        (p ∷ ps)
        ((st.heap p).value ∷ values_at st.heap ps)
pushed-Holds p size ps st tail l f et es =
    let w : Wrapper = record { value = (st.heap p).value; next = st.vh_list_head } in
    let here = update_same st.heap p w in
    record {
      list = record {
        linked = (
          refl,
          subst (λ (v : Wrapper). Links (update st.heap p w) v.next ps) (sym here)
              (Links-update st.heap p w ps st.vh_list_head f l.linked),
        );
        ended = et;
        distinct = (f, l.distinct);
        counted = es;
      };
      values = values_at-set_next st.heap p st.vh_list_head (p ∷ ps);
    }

-- A wrapper that is not on the list, pushed back, is the first of the list, with its value.
pub vh_push_back_value_lem :
    (p : ℕ) (ps : List ℕ) (st : Pending)
    → IsList st ps
    → IsFresh p ps
    → Holds (vh_push_back_value p st) (p ∷ ps) ((st.heap p).value ∷ values_at st.heap ps)
unfolding vh_push_back_value
vh_push_back_value_lem p [] st l f =
    let e : is_empty st ≡ true = ground arith in
    rw e (pushed-Holds p 1 [] st (some p) l f refl refl)
vh_push_back_value_lem p (q ∷ ps) st l f =
    let e : is_empty st ≡ false = ground arith in
    rw e (
      pushed-Holds p (st.vh_list_size + 1) (q ∷ ps) st st.vh_list_tail l f l.ended
        (omega (arith, l.counted)))

-- With more fuel than there are values, the loop of a shutdown ends: it pops all the values, and
-- tells their clients in the order of the list. The list is empty afterwards.
pub vh_shutdown_lem :
    (fuel : ℕ) (st : Pending) (ps : List ℕ)
    → IsList st ps
    → length ps < fuel
    → (st' : Pending) × (vh_shutdown fuel st ≡ some (values_at st.heap ps, st')) × IsList st' []
unfolding vh_shutdown
vh_shutdown_lem zero st ps l h = elim h [ ]
vh_shutdown_lem (suc fuel) st [] l h = (st, rw (vh_get_next_pending_lem st [] l, vh_shutdown), l)
vh_shutdown_lem (suc fuel) st (p ∷ rest) l h =
    let (st', e, holds, same) = vh_get_next_pending_lem st (p ∷ rest) l in
    let (st'', e', empty) = vh_shutdown_lem fuel st' rest holds.list (omega arith) in
    (st'', rw (e, vh_shutdown, e', same), empty)

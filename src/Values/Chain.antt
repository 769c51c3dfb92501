-- ===== src/Values/Chain.antt =====
-- paxos2/lib/proposer_values_handler.c: what the linked list's pointers hold, and what an update of a
-- wrapper keeps of it.
use fds.Prelude.{
  ℕ, ◌≡◌, refl, sym, ap, ap₂, ◌≢◌, inl, inr, List, [], ◌∷◌, ◌++◌, map, Option, none, some, ◌==◌,
  length, update, update_same, update_other, arith, All, All-append, Bool-cases,
}
use fds.Values.{Wrapper, Pending, vh_wrap_value, set_next}

-- The wrappers that are linked from a pointer on.
abbrev pub Links : (ℕ → Wrapper) → Option ℕ → List ℕ → Type 0
Links heap head [] = head ≡ none
Links heap head (p ∷ ps) = (head ≡ some p) × Links heap (heap p).next ps

abbrev pub last : List ℕ → Option ℕ
last [] = none
last (p ∷ []) = some p
last (p ∷ q ∷ ps) = last (q ∷ ps)

abbrev pub IsFresh : ℕ → List ℕ → Type 0
IsFresh p ps = All (λ q. p ≢ q) ps

abbrev pub IsDistinct : List ℕ → Type 0
IsDistinct [] = Unit
IsDistinct (p ∷ ps) = IsFresh p ps × IsDistinct ps

-- The list consists of the wrappers at `ps`.
pub record IsList (st : Pending) (ps : List ℕ) : Type 0 where
  pub linked : Links st.heap st.vh_list_head ps
  pub ended : st.vh_list_tail ≡ last ps
  pub distinct : IsDistinct ps
  pub counted : st.vh_list_size ≡ length ps

abbrev pub values_at : (ℕ → Wrapper) → List ℕ → List (List ℕ)
values_at heap = map (λ p. (heap p).value)

module _ (heap : ℕ → Wrapper) (p : ℕ) (w : Wrapper) where
  pub Links-update :
      (ps : List ℕ) (head : Option ℕ)
      → IsFresh p ps
      → Links heap head ps
      → Links (update heap p w) head ps
  Links-update [] head f l = l
  Links-update (q ∷ ps) head f l =
      (l.0, rw (update_other heap p q w f.0) (Links-update ps (heap q).next f.1 l.1))

  pub values_at-update :
      (ps : List ℕ) → IsFresh p ps → values_at (update heap p w) ps ≡ values_at heap ps
  values_at-update [] f = refl
  values_at-update (q ∷ ps) f = rw (update_other heap p q w f.0, values_at-update ps f.1)

pub last-IsFresh : (q t : ℕ) (ps : List ℕ) → IsFresh q ps → last ps ≡ some t → t ≢ q
last-IsFresh q t [] f e = λ _. cc
last-IsFresh q t (p ∷ []) f e = λ h. f.0 (ground arith)
last-IsFresh q t (p ∷ r ∷ ps) f e = last-IsFresh q t (r ∷ ps) f.1 e

pub last-append : (ps : List ℕ) (p : ℕ) → last (ps ++ p ∷ []) ≡ some p
last-append [] p = refl
last-append (q ∷ []) p = refl
last-append (q ∷ r ∷ ps) p = last-append (r ∷ ps) p

-- A new last wrapper is distinct from the others.
pub IsDistinct-append :
    (ps : List ℕ) (p : ℕ) → IsFresh p ps → IsDistinct ps → IsDistinct (ps ++ p ∷ [])
IsDistinct-append [] p f d = (tt, tt)
IsDistinct-append (q ∷ ps) p f d =
    (All-append (λ r. q ≢ r) ps (p ∷ []) d.0 (λ e. f.0 (sym e), tt), IsDistinct-append ps p f.1 d.1)

-- The last wrapper's link set to a new one.
pub Links-append :
    (heap : ℕ → Wrapper) (p t : ℕ) (ps : List ℕ) (head : Option ℕ)
    → IsFresh p ps
    → IsDistinct ps
    → (heap p).next ≡ none
    → last ps ≡ some t
    → Links heap head ps
    → Links (set_next heap t (some p)) head (ps ++ p ∷ [])
Links-append heap p t [] head f d n e l = cc
Links-append heap p t (q ∷ []) head f d n e l = (l.0, (ground arith, ground arith))
Links-append heap p t (q ∷ r ∷ ps) head f d n e l =
    let rest = Links-append heap p t (r ∷ ps) (heap q).next f.1 d.1 n e l.1 in
    (l.0, (rw (update_other heap t q _ (last-IsFresh q t (r ∷ ps) d.0 e)) rest.0, rest.1))

pub set_next-value :
    (heap : ℕ → Wrapper) (t : ℕ) (next : Option ℕ) (q : ℕ)
    → (set_next heap t next q).value ≡ (heap q).value
set_next-value heap t next q = elim (Bool-cases (t == q)) [
  | inl e ↦ rw e (ap (λ i. (heap i).value) (ground arith))
  | inr e ↦ rw e
]

pub values_at-set_next :
    (heap : ℕ → Wrapper) (t : ℕ) (next : Option ℕ) (ps : List ℕ)
    → values_at (set_next heap t next) ps ≡ values_at heap ps
values_at-set_next heap t next [] = refl
values_at-set_next heap t next (q ∷ ps) =
    ap₂ ◌∷◌ (set_next-value heap t next q) (values_at-set_next heap t next ps)

-- What a call leaves: the list of the wrappers at `ps`, with the values `vs`.
pub record Holds (st : Pending) (ps : List ℕ) (vs : List (List ℕ)) : Type 0 where
  pub list : IsList st ps
  pub values : values_at st.heap ps ≡ vs

abbrev pub last_of : ℕ → List ℕ → ℕ
last_of q [] = q
last_of q (p ∷ ps) = last_of p ps

pub last-cons : (q : ℕ) (ps : List ℕ) → last (q ∷ ps) ≡ some (last_of q ps)
last-cons q [] = refl
last-cons q (p ∷ ps) = last-cons p ps

pub wrapped :
    (p : ℕ) (value : List ℕ) (heap : ℕ → Wrapper)
    → vh_wrap_value p value heap p ≡ record { value = value; next = none }
wrapped p value heap = update_same heap p _

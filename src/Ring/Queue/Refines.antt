-- ===== src/Ring/Queue/Refines.antt =====
-- ring_paxos/lib/queue.c: the queue and the list of its elements.
use fds.Prelude.{
  ℕ, suc, ◌+◌, ◌-◌, ◌%◌, ◌^◌, ◌≤◌, ◌<◌, ◌≡◌, refl, sym, ap, ap₂, ◌∙◌, subst, List, [], ◌∷◌, ◌++◌,
  update, update_same, arith, Bool-cases, inl, inr, ◌==◌, length, length-append, some, true, false,
}
use fds.Ring.Queue.{
  QueueElement, LpQueue, freed, no_element, index_after, index_before, size_plus, queue_pop,
  queue_discard_last, put_first,
}
use fds.Ring.Queue.Contents.{
  contents, contents-snoc, contents-update, contents-after, after-mod, before-mod, below-mod,
  add-mod, length-contents,
}

-- The sizes of the elements.
unfoldable pub total : List QueueElement → ℕ
total [] = 0
total (e ∷ xs) = e.size + total xs

pub total-append :
    (xs : List QueueElement) (e : QueueElement) → total (xs ++ e ∷ []) ≡ total xs + e.size
unfolding total
total-append [] e = omega arith
total-append (x ∷ xs) e = omega (arith, total-append xs e)

-- The queue holds the elements of a list, the oldest first.
pub record IsQueue (q : LpQueue) (xs : List QueueElement) : Type 0 where
  pub in_array : q.read_index < q.max_count
  pub counted : q.queue_count ≡ length xs
  pub room : q.queue_count ≤ q.max_count
  pub held : contents q.queue q.max_count q.read_index q.queue_count ≡ xs
  pub next : q.write_index ≡ (q.read_index + q.queue_count) % q.max_count
  pub sized : q.queue_size ≡ total xs % 2 ^ 32

pub append-IsQueue :
    (q : LpQueue) (xs : List QueueElement) (e : QueueElement)
    → IsQueue q xs
    → q.queue_count < q.max_count
    → IsQueue
        (record q {
          queue = update q.queue q.write_index e;
          queue_count = q.queue_count + 1;
          queue_size = size_plus q.queue_size e.size;
          write_index = index_after q.max_count q.write_index;
        })
        (xs ++ e ∷ [])
append-IsQueue q xs e h lt = record {
  in_array = h.in_array;
  counted = omega (arith, h.counted, length-append xs (e ∷ []));
  room = omega arith;
  held =
      let c : q.queue_count + 1 ≡ suc q.queue_count = omega arith in
      rw
        (
          c,
          contents-snoc (update q.queue q.write_index e) q.max_count q.read_index q.queue_count,
          h.next,
          contents-update q.queue q.max_count q.read_index q.queue_count
              (q.read_index + q.queue_count) e (omega arith) (omega arith),
          update_same q.queue ((q.read_index + q.queue_count) % q.max_count) e,
          h.held,
        )
        refl;
  next =
      let c : q.read_index + (q.queue_count + 1) ≡ q.read_index + q.queue_count + 1 = omega arith in
      rw (h.next, c)
        (after-mod q.max_count (q.read_index + q.queue_count) (omega (arith, h.in_array)));
  sized = rw (h.sized, total-append xs e) (omega arith);
}

cons-injective : {A : Type 0} {x y : A} {xs ys : List A} → x ∷ xs ≡ y ∷ ys → (x ≡ y) × (xs ≡ ys)
cons-injective h = (cc, cc)

snoc-injective :
    {A : Type 0} (xs ys : List A) (x y : A)
    → length xs ≡ length ys
    → xs ++ x ∷ [] ≡ ys ++ y ∷ []
    → (xs ≡ ys) × (x ≡ y)
snoc-injective [] [] x y n h = (refl, (cons-injective h).0)
snoc-injective [] (b ∷ ys) x y n h = absurd (omega (arith, n))
snoc-injective (a ∷ xs) [] x y n h = absurd (omega (arith, n))
snoc-injective (a ∷ xs) (b ∷ ys) x y n h =
    let (p, q) = cons-injective h in
    let (r, s) = snoc-injective xs ys x y (omega (arith, n)) q in (ap₂ (λ z zs. z ∷ zs) p r, s)

minus_first : (t a : ℕ) → ((a + t) % 2 ^ 32 + (2 ^ 32 - a % 2 ^ 32)) % 2 ^ 32 ≡ t % 2 ^ 32
minus_first t a = omega arith

minus_last : (t a : ℕ) → ((t + a) % 2 ^ 32 + (2 ^ 32 - a % 2 ^ 32)) % 2 ^ 32 ≡ t % 2 ^ 32
minus_last t a = omega arith

mod_of : (m a b : ℕ) → a ≡ b → a % m ≡ b % m
mod_of m a b e = ap (λ x. x % m) e

index_after-add : (m r b : ℕ) → r < m → (index_after m r + b) % m ≡ (r + 1 + b) % m
index_after-add m r b h = elim (Bool-cases (r + 1 == m)) [
  | inl e ↦
      let z : r + 1 + b ≡ 0 + b + m = ground arith in
      rw (e, z) (sym (add-mod m (0 + b) (omega (arith, h))))
  | inr e ↦ rw e refl
]

index_after-lt : (m r : ℕ) → r < m → index_after m r < m
index_after-lt m r h = ground arith

pub pop-IsQueue :
    (q : LpQueue) (x : QueueElement) (xs : List QueueElement)
    → IsQueue q (x ∷ xs)
    → (q' : LpQueue) × (queue_pop q ≡ (some x, q')) × IsQueue q' xs × (q'.max_count ≡ q.max_count)
unfolding queue_pop contents total
pop-IsQueue q x xs h =
    let m = q.max_count in
    let r = q.read_index in
    let some_left : (q.queue_count == 0) ≡ false = let c = h.counted in ground arith in
    let c : q.queue_count ≡ suc (length xs) = h.counted in
    let all : q.queue (r % m) ∷ contents q.queue m (r + 1) (length xs) ≡ x ∷ xs =
      subst (λ n. contents q.queue m r n ≡ x ∷ xs) c h.held in
    let (first, rest) = cons-injective all in
    let here : q.queue r ≡ x = ap q.queue (sym (below-mod m r h.in_array)) ∙ first in
    let less : q.queue_count - 1 ≡ length xs = omega arith in
    rw (some_left, here)
      (
        _,
        refl,
        record {
          in_array = index_after-lt m r h.in_array;
          counted = less;
          room = omega (arith, h.room);
          held = rw (contents-after q.queue m r (q.queue_count - 1) h.in_array, less) rest;
          next =
              h.next
              ∙ mod_of m _ _ (omega (arith, c))
              ∙ sym (index_after-add m r (q.queue_count - 1) h.in_array);
          sized = rw h.sized (minus_first (total xs) x.size);
        },
        refl,
      )

pub discard-IsQueue :
    (q : LpQueue) (xs : List QueueElement) (x : QueueElement)
    → IsQueue q (xs ++ x ∷ [])
    → (q' : LpQueue) × (queue_discard_last q ≡ (true, q', freed x.address ∷ []))
      × IsQueue q' xs
      × (q'.max_count ≡ q.max_count)
      × (q'.queue_count < q'.max_count)
unfolding queue_discard_last
discard-IsQueue q xs x h =
    let m = q.max_count in
    let r = q.read_index in
    let n = length xs in
    let c : q.queue_count ≡ suc n = omega (arith, h.counted, length-append xs (x ∷ [])) in
    let some_left : (q.queue_count == 0) ≡ false = ground arith in
    let less : q.queue_count - 1 ≡ n = omega arith in
    let all : contents q.queue m r n ++ q.queue ((r + n) % m) ∷ [] ≡ xs ++ x ∷ [] =
      sym (contents-snoc q.queue m r n)
      ∙ subst (λ n. contents q.queue m r n ≡ xs ++ x ∷ []) c h.held in
    let (rest, last) =
      snoc-injective (contents q.queue m r n) xs (q.queue ((r + n) % m)) x
        (length-contents q.queue m r n) all in
    let back : index_before m q.write_index ≡ (r + n) % m =
      ap (index_before m) (h.next ∙ mod_of m _ (r + n + 1) (omega (arith, c)))
      ∙ before-mod m (r + n) (omega (arith, h.in_array)) in
    rw (some_left, back, last)
      (
        _,
        refl,
        record {
          in_array = h.in_array;
          counted = less;
          room = omega (arith, h.room);
          held =
              rw
                (
                  less,
                  contents-update q.queue m r n (r + n) no_element (omega arith)
                      (omega (arith, h.room, c)),
                )
                rest;
          next = mod_of m _ _ (omega (arith, less));
          sized = rw (h.sized, total-append xs x) (minus_last (total xs) x.size);
        },
        refl,
        omega (arith, h.room, c),
      )

index_before-lt : (m r : ℕ) → r < m → index_before m r < m
index_before-lt m r h = ground arith

index_before-after : (m r : ℕ) → r < m → index_after m (index_before m r) ≡ r
index_before-after m r h = ground arith

index_before-mod : (m r : ℕ) → r < m → index_before m r ≡ (r + (m - 1)) % m
index_before-mod m r h = elim (Bool-cases (r == 0)) [
  | inl e ↦
      let z : r + (m - 1) ≡ m - 1 = ground arith in
      rw (e, z) (sym (below-mod m (m - 1) (omega arith)))
  | inr e ↦
      let z : r + (m - 1) ≡ r - 1 + m = ground arith in
      rw (e, z, add-mod m (r - 1) (omega (arith, h))) (sym (below-mod m (r - 1) (omega arith)))
]

index_before-add : (m r n : ℕ) → r < m → (r + n) % m ≡ (index_before m r + (n + 1)) % m
index_before-add m r n h = elim (Bool-cases (r == 0)) [
  | inl e ↦
      let z : m - 1 + (n + 1) ≡ r + n + m = ground arith in
      rw (e, z) (sym (add-mod m (r + n) (omega (arith, h))))
  | inr e ↦ let z : r - 1 + (n + 1) ≡ r + n = ground arith in rw (e, z) refl
]

pub put_first-IsQueue :
    (q : LpQueue) (xs : List QueueElement) (e : QueueElement)
    → IsQueue q xs
    → q.queue_count < q.max_count
    → IsQueue (put_first e q) (e ∷ xs)
unfolding contents total
put_first-IsQueue q xs e h lt =
    let m = q.max_count in
    let r = q.read_index in
    let n = q.queue_count in
    let i = index_before m r in
    let inside : i < m = index_before-lt m r h.in_array in
    let here : i ≡ (r + (m - 1)) % m = index_before-mod m r h.in_array in
    record {
      in_array = inside;
      counted = omega (arith, h.counted);
      room = omega arith;
      held =
          let c : n + 1 ≡ suc n = omega arith in
          let f = update q.queue i e in
          let head : f (i % m) ≡ e = ap f (below-mod m i inside) ∙ update_same q.queue i e in
          let turn : index_after m i ≡ r = index_before-after m r h.in_array in
          let tail : contents f m (i + 1) n ≡ xs =
            sym (contents-after f m i n inside)
            ∙ ap (λ j. contents f m j n) turn
            ∙ ap (λ j. contents (update q.queue j e) m r n) here
            ∙ contents-update q.queue m r n (r + (m - 1)) e (omega arith)
                (omega (arith, h.in_array))
            ∙ h.held in
          rw c (ap₂ (λ z zs. z ∷ zs) head tail);
      next = h.next ∙ index_before-add m r n h.in_array;
      sized = rw h.sized (omega arith);
    }

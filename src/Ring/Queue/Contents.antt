-- ===== src/Ring/Queue/Contents.antt =====
-- What stands in a circular array from an index on.
use fds.Prelude.{
  ℕ, zero, suc, ◌+◌, ◌%◌, ◌≤◌, ◌<◌, ◌≡◌, ◌≢◌, refl, sym, ap₂, List, [], ◌∷◌, ◌++◌, update,
  update_other, arith, Bool-cases, inl, inr, ◌==◌, length, false,
}
use fds.Ring.Queue.{index_after, index_before}

wraps : (m a : ℕ) → a % m + 1 ≡ m → (a + 1) % m ≡ 0
wraps m a e = grind arith

ne_lt : (m a : ℕ) → 0 < m → (a % m + 1 == m) ≡ false → a % m + 1 < m
ne_lt m a h e = grind arith

steps : (m a : ℕ) → a % m + 1 < m → (a + 1) % m ≡ a % m + 1
steps m a e = grind arith

-- The index of an instance beyond `m` is taken modulo `m`.
pub after-mod : (m a : ℕ) → 0 < m → index_after m (a % m) ≡ (a + 1) % m
after-mod m a h = elim (Bool-cases (a % m + 1 == m)) [
  | inl e ↦ rw e (sym (wraps m a (ground arith)))
  | inr e ↦ rw e (sym (steps m a (ne_lt m a h e)))
]

pub before-mod : (m a : ℕ) → 0 < m → index_before m ((a + 1) % m) ≡ a % m
before-mod m a h = grind arith

pub below-mod : (m r : ℕ) → r < m → r % m ≡ r
below-mod m r h = grind arith

pub add-mod : (m r : ℕ) → 0 < m → (r + m) % m ≡ r % m
add-mod m r h = grind arith

residues_apart : (m r s : ℕ) → r < s → s < r + m → s % m ≢ r % m
residues_apart m r s lo hi e = grind arith

module _ {A : Type 0} where
  -- `n` elements from the index `r` on.
  unfoldable pub contents : (ℕ → A) → ℕ → ℕ → ℕ → List A
  contents f m r zero = []
  contents f m r (suc n) = f (r % m) ∷ contents f m (r + 1) n

  pub contents-snoc :
      (f : ℕ → A) (m r n : ℕ) → contents f m r (suc n) ≡ contents f m r n ++ f ((r + n) % m) ∷ []
  unfolding contents
  contents-snoc f m r zero = let e : r + 0 ≡ r = omega arith in rw e refl
  contents-snoc f m r (suc n) =
      let e : r + suc n ≡ r + 1 + n = omega arith in rw (contents-snoc f m (r + 1) n, e) refl

  pub contents-update :
      (f : ℕ → A) (m r n s : ℕ) (v : A)
      → r + n ≤ s
      → s < r + m
      → contents (update f (s % m) v) m r n ≡ contents f m r n
  unfolding contents
  contents-update f m r zero s v lo hi = refl
  contents-update f m r (suc n) s v lo hi =
      ap₂ (λ x xs. x ∷ xs)
        (update_other f (s % m) (r % m) v (residues_apart m r s (omega arith) hi))
        (contents-update f m (r + 1) n s v (omega arith) (omega arith))

  contents-add : (f : ℕ → A) (m r n : ℕ) → 0 < m → contents f m (r + m) n ≡ contents f m r n
  unfolding contents
  contents-add f m r zero h = refl
  contents-add f m r (suc n) h =
      let e : r + m + 1 ≡ r + 1 + m = omega arith in
      rw (add-mod m r h, e, contents-add f m (r + 1) n h) refl

  pub contents-after :
      (f : ℕ → A) (m r n : ℕ) → r < m → contents f m (index_after m r) n ≡ contents f m (r + 1) n
  contents-after f m r n h = elim (Bool-cases (r + 1 == m)) [
    | inl e ↦
        let z : r + 1 ≡ 0 + m = ground arith in rw (e, z) (sym (contents-add f m 0 n (omega arith)))
    | inr e ↦ rw e refl
  ]

  pub length-contents : (f : ℕ → A) (m r n : ℕ) → length (contents f m r n) ≡ n
  unfolding contents
  length-contents f m r zero = refl
  length-contents f m r (suc n) = omega (arith, length-contents f m (r + 1) n)

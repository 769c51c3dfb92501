-- ===== src/Prelude/Monad.antt =====
-- The monad of code that may stop at an assertion or at a pointer that is NULL: `none` is such a stop.
use mathlib.Core.Path.{◌≡◌, refl}
use mathlib.Core.Bool.{Bool, true, false}
use fds.Prelude.Tests.{if◌then◌else◌}
use mathlib.Core.Option.{Option, none, some}

infixl 5 ◌>>=◌ ◌>>◌
abbrev pub ◌>>=◌ {ℓ κ} : {A : Type ℓ} {B : Type κ} → Option A → (A → Option B) → Option B
none >>= f = none
some a >>= f = f a

abbrev pub ◌>>◌ {ℓ} : {B : Type ℓ} → Option (Unit {0}) → Option B → Option B
m >> k = m >>= λ _. k

-- `assert(b)`.
abbrev pub assert : Bool → Option (Unit {0})
assert true = some tt
assert false = none

-- Inversion of a step that did not stop.
pub >>=-eq-some {ℓ κ} :
    {A : Type ℓ} {B : Type κ} (m : Option A) (f : A → Option B) {b : B}
    → (m >>= f) ≡ some b
    → (a : A) × (m ≡ some a) × (f a ≡ some b)
>>=-eq-some none f h = cc
>>=-eq-some (some a) f h = (a, refl, h)

pub assert-eq-some {ℓ} :
    {A : Type ℓ} (b : Bool) (k : Option A) {a : A} → (assert b >> k) ≡ some a → k ≡ some a
assert-eq-some true k h = h
assert-eq-some false k h = cc

pub some-injective {ℓ} : {A : Type ℓ} {a b : A} → some a ≡ some b → a ≡ b
some-injective h = cc

-- What holds of a result, if there is one.
abbrev pub Ensures {ℓ κ} : {A : Type ℓ} → Option A → (A → Type κ) → Type κ
Ensures none P = Unit
Ensures (some a) P = P a

module _ {ℓ κ} {A : Type ℓ} (P : A → Type κ) where
  pub ensures_if :
      (b : Bool) (x y : Option A)
      → (b ≡ true → Ensures x P)
      → (b ≡ false → Ensures y P)
      → Ensures (if b then x else y) P
  ensures_if true x y h k = h refl
  ensures_if false x y h k = k refl

  pub ensures_assert :
      (b : Bool) (k : Option A) → (b ≡ true → Ensures k P) → Ensures (assert b >> k) P
  ensures_assert true k h = h refl
  ensures_assert false k h = tt

  pub ensures_bind {ι μ} :
      {B : Type ι} (Q : B → Type μ) (m : Option B) (f : B → Option A)
      → Ensures m Q
      → ((b : B) → Q b → Ensures (f b) P)
      → Ensures (m >>= f) P
  ensures_bind Q none f h k = tt
  ensures_bind Q (some b) f h k = k b h

  pub ensures_after {ι} :
      {B : Type ι} (m : Option B) (f : B → Option A)
      → ((b : B) → Ensures (f b) P)
      → Ensures (m >>= f) P
  ensures_after none f k = tt
  ensures_after (some b) f k = k b

pub ensures_map {ℓ κ μ} :
    {A : Type ℓ} (P : A → Type κ) (Q : A → Type μ) (m : Option A)
    → ((a : A) → Q a → P a)
    → Ensures m Q
    → Ensures m P
ensures_map P Q none f h = tt
ensures_map P Q (some a) f h = f a h

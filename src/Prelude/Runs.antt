-- ===== src/Prelude/Runs.antt =====
-- A run of C code: it ends with a value, or it stops at a failed `assert` or at an access outside
-- an array. The programs are built without NDEBUG, so every `assert` is live.
use mathlib.Core.Bool.{Bool, true, false}
use mathlib.Core.Path.{◌≡◌, refl}

pub data Run {ℓ} (A : Type ℓ) : Type ℓ where
  done : A → Run A
  abort : Run A

infixl 5 ◌>>=◌ ◌>>◌
abbrev pub ◌>>=◌ {ℓ κ} : {A : Type ℓ} {B : Type κ} → Run A → (A → Run B) → Run B
done a >>= f = f a
abort >>= f = abort

abbrev pub ◌>>◌ {ℓ} : {B : Type ℓ} → Run (Unit {0}) → Run B → Run B
m >> k = m >>= λ _. k

-- `assert(b)`
abbrev pub assert : Bool → Run (Unit {0})
assert true = done tt
assert false = abort

-- The run ends with a value that satisfies `P`.
abbrev pub Returns {ℓ} : {A : Type ℓ} → Run A → (A → Type 0) → Type 0
Returns (done a) P = P a
Returns abort P = ⊥

pub Returns-impl {ℓ} :
    {A : Type ℓ} (r : Run A) (P Q : A → Type 0) → ((a : A) → P a → Q a) → Returns r P → Returns r Q
Returns-impl (done a) P Q f h = f a h
Returns-impl abort P Q f h = h

-- A run followed by another.
pub Returns-bind {ℓ κ} :
    {A : Type ℓ} {B : Type κ} (r : Run A) (f : A → Run B) (P : A → Type 0) (Q : B → Type 0)
    → Returns r P
    → ((a : A) → P a → Returns (f a) Q)
    → Returns (r >>= f) Q
Returns-bind (done a) f P Q h g = g a h
Returns-bind abort f P Q h g = elim h [ ]

pub Returns-and {ℓ} :
    {A : Type ℓ} (r : Run A) (P Q : A → Type 0)
    → Returns r P
    → Returns r Q
    → Returns r (λ a. P a × Q a)
Returns-and (done a) P Q h k = (h, k)
Returns-and abort P Q h k = h

-- A run that stops in its second part.
pub bind-abort {ℓ κ} :
    {A : Type ℓ} {B : Type κ} (r : Run A) (f : A → Run B) (P : A → Type 0)
    → Returns r P
    → ((a : A) → P a → f a ≡ abort)
    → (r >>= f) ≡ abort
bind-abort (done a) f P h g = g a h
bind-abort abort f P h g = refl

pub Returns-parts {ℓ κ} :
    {A : Type ℓ} {B : Type κ} (r : Run A) (f : A → Run B) (Q : B → Type 0)
    → Returns (r >>= f) Q
    → Returns r (λ a. Returns (f a) Q)
Returns-parts (done a) f Q h = h
Returns-parts abort f Q h = h

-- ===== src/Sorted.antt =====
-- The sorted arrays of server/tuple.c and server/emaildomain.c: what it is to be sorted by a key,
-- and the list forms of the `memmove` calls that open and close a gap.
pub mod Search
pub mod Change
pub mod Last
use x_grey.Prelude.{
  ℕ, zero, suc, Ordering, ◌≡◌, Option, none, some, List, [], ◌∷◌, ◌++◌, All, take, drop,
}
use x_grey.Order.{Compares}

-- Open a gap at `i` and write `x` there.
abbrev pub insert_at {ℓ} : {A : Type ℓ} → ℕ → A → List A → List A
insert_at zero x xs = x ∷ xs
insert_at (suc i) x [] = x ∷ []
insert_at (suc i) x (y ∷ ys) = y ∷ insert_at i x ys

-- Close the gap at `i`.
abbrev pub remove_at {ℓ} : {A : Type ℓ} → ℕ → List A → List A
remove_at i [] = []
remove_at zero (x ∷ xs) = xs
remove_at (suc i) (x ∷ xs) = x ∷ remove_at i xs

-- A value for the key itself, and one for every other key.
unfoldable pub if_eq {ℓ} : {A : Type ℓ} → Ordering → A → A → A
if_eq Ordering.lt x y = y
if_eq Ordering.eq x y = x
if_eq Ordering.gt x y = y

module _ {ℓ κ} {K : Type ℓ} {A : Type κ} (c : Compares K) (key_of : A → K) where
  abbrev pub look_key : K → A → Ordering
  look_key k a = c.cmp k (key_of a)

  -- Strictly ascending keys: sorted, and no key stands twice.
  abbrev pub IsAscending : List A → Type 0
  IsAscending [] = Unit
  IsAscending (x ∷ xs) = All (λ y. c.cmp (key_of x) (key_of y) ≡ Ordering.lt) xs × IsAscending xs

  -- The reference for every search: walk the list.
  abbrev pub find_key : K → List A → Option A
  find_key k [] = none
  find_key k (x ∷ xs) = elim (c.cmp k (key_of x)) [ Ordering.eq ↦ some x | _ ↦ find_key k xs ]

-- ===== src/Pool/Counters.antt =====
-- server/tuple.c: what `tuple_expire` does to the counters of reads and writes.
use x_grey.Prelude.{
  ℕ, zero, suc, ◌+◌, ◌≡◌, refl, Option, none, some, Bool, true, false, if◌then◌else◌, Run, done,
  abort, Returns, assert, ◌>>=◌, get_elem?, ltb, length,
}
use x_grey.Pool.{
  Config, Pool, mark, count_removed, update, expire_loop, free_loop, watermarks, tuple_expire,
}

-- If the run ends with a value, that satisfies `P`.
abbrev pub Whenever {ℓ} : {A : Type ℓ} → Run A → (A → Type 0) → Type 0
Whenever (done a) P = P a
Whenever abort P = Unit

Whenever-bind {ℓ κ} :
    {A : Type ℓ} {B : Type κ} (r : Run A) (f : A → Run B) (P : A → Type 0) (Q : B → Type 0)
    → Whenever r P
    → ((a : A) → P a → Whenever (f a) Q)
    → Whenever (r >>= f) Q
Whenever-bind (done a) f P Q h g = g a h
Whenever-bind abort f P Q h g = tt

Whenever-assert {ℓ} :
    {A : Type ℓ} (b : Bool) (k : Run A) (Q : A → Type 0)
    → Whenever k Q
    → Whenever (assert b >>= λ a. k) Q
Whenever-assert true k Q h = h
Whenever-assert false k Q h = tt

Whenever-option {ℓ κ} :
    {A : Type ℓ} {B : Type κ} (o : Option A) (f : A → Run B) (Q : B → Type 0)
    → ((a : A) → Whenever (f a) Q)
    → Whenever (elim o [ none ↦ abort | some a ↦ f a ]) Q
Whenever-option none f Q h = tt
Whenever-option (some a) f Q h = h a

Whenever-if {ℓ} :
    {A : Type ℓ} (b : Bool) (x y : Run A) (Q : A → Type 0)
    → Whenever x Q
    → Whenever y Q
    → Whenever (if b then x else y) Q
Whenever-if true x y Q h k = h
Whenever-if false x y Q h k = k

pub Returns-Whenever {ℓ} :
    {A : Type ℓ} (r : Run A) (P Q : A → Type 0)
    → Returns r P
    → Whenever r Q
    → Returns r (λ a. P a × Q a)
Returns-Whenever (done a) P Q h k = (h, k)
Returns-Whenever abort P Q h k = h

-- The counters of a pool: reads and writes, in all and in this period.
abbrev pub HasCounters : (reads reads_now writes writes_now : ℕ) → Pool → Type 0
HasCounters reads reads_now writes writes_now u =
    ((u.tuples_read ≡ reads) × (u.tuples_read_cucurrent ≡ reads_now))
    × ((u.tuples_write ≡ writes) × (u.tuples_write_cucurrent ≡ writes_now))

abbrev HasSame : Pool → Pool → Type 0
HasSame s =
    HasCounters s.tuples_read s.tuples_read_cucurrent s.tuples_write s.tuples_write_cucurrent

count_removed-HasSame : (s t : Pool) (b : Bool) → HasSame t s → HasSame t (count_removed s b)
unfolding count_removed
count_removed-HasSame s t true k = k
count_removed-HasSame s t false k = k

expire_loop-HasSame :
    (c : Config) (now n i j : ℕ) (s t : Pool)
    → HasSame t s
    → Whenever (expire_loop c now n i j s) (λ r. HasSame t r.0)
unfolding expire_loop
expire_loop-HasSame c now zero i j s t h = h
expire_loop-HasSame c now (suc n) i j s t h =
    Whenever-option (get_elem? s.tuplespace i) _ _ (λ slot.
      let x = mark c now (s.pool slot) in
      let s' : Pool = record s { pool = update s.pool slot x } in
      Whenever-if x.f.remove _ _ _
        (expire_loop-HasSame c now n (i + 1) j (count_removed s' x.f.whitelist) t
          (count_removed-HasSame s' t x.f.whitelist h))
        (expire_loop-HasSame c now n (i + 1) (j + 1) _ t h))

free_loop-HasSame :
    (c : Config) (n i j : ℕ) (s t : Pool) → HasSame t s → Whenever (free_loop c n i j s) (HasSame t)
unfolding free_loop
free_loop-HasSame c zero i j s t h = h
free_loop-HasSame c (suc n) i j s t h =
    Whenever-if (s.pool i).f.remove _ _ _
      (Whenever-assert (ltb j (length s.tuplespace)) _ _
        (Whenever-assert (ltb (j + 1) c.poolmax) _ _ (free_loop-HasSame c n (i + 1) (j + 1) _ t h)))
      (free_loop-HasSame c n (i + 1) j s t h)

-- A sweep that returns counts as one write, and as no read.
pub tuple_expire-HasCounters :
    (c : Config) (now : ℕ) (s : Pool)
    → Whenever (tuple_expire c now s) (
        HasCounters s.tuples_read s.tuples_read_cucurrent
          (s.tuples_write + 1)
          (s.tuples_write_cucurrent + 1))
unfolding tuple_expire watermarks
tuple_expire-HasCounters c now s =
    let t : Pool = record s {
      tuples_write = s.tuples_write + 1;
      tuples_write_cucurrent = s.tuples_write_cucurrent + 1;
    } in
    Whenever-bind (expire_loop c now s.poolnum 0 0 t) _ (λ r. HasSame t r.0) _
      (expire_loop-HasSame c now s.poolnum 0 0 t t ((refl, refl), (refl, refl)))
      (λ (r, j) h.
        Whenever-bind (free_loop c c.poolmax 0 j (record r { poolnum = j })) _ (HasSame t) _
          (free_loop-HasSame c c.poolmax 0 j (record r { poolnum = j }) t h) (λ u k. k))

-- ===== src/Pool/Room.antt =====
-- `tuple_allocate` of server/tuple.c with room in the pool, and the tuples that a pool has.
use x_grey.Prelude.{
  ℕ, zero, suc, ◌≤◌, ◌<◌, ◌≡◌, refl, sym, ap, ◌∙◌, some, false, List, [], ◌∷◌, arith, length,
  length-take, get_elem?, get_elem?_lt, done, ◌==◌, le→leb, if◌then◌else◌,
}
use x_grey.Sorted.{insert_at}
use x_grey.Tuple.{Tuple}
use x_grey.Tuple.Key.{IsTuple, tuple_key, TupleKey}
use x_grey.Pool.{Config, Pool, update, tuple_allocate, next_slot}
use x_grey.Pool.Search.{IsPool, live, slot_key}
use x_grey.Pool.Add.{IsAdded}
use x_grey.Pool.Kept.{update-key}

-- The pool has a tuple with the key.
pub record Has (p : Pool) (key : TupleKey) : Type 0 where
  pub place : ℕ
  pub slot : ℕ
  pub is_live : get_elem? (live p) place ≡ some slot
  pub has_key : slot_key p slot ≡ key

-- With room in the pool the next free slot is returned, and nothing else happens.
pub tuple_allocate_room :
    (c : Config) (now : ℕ) (s : Pool)
    → IsPool c s
    → s.poolnum < c.poolmax
    → (slot : ℕ) × (tuple_allocate c now s ≡ done (s, slot))
      × (get_elem? s.tuplespace s.poolnum ≡ some slot)
unfolding tuple_allocate next_slot
tuple_allocate_room c now s v room =
    let (slot, e) = get_elem?_lt s.tuplespace s.poolnum (omega (arith, v.full)) in
    (
      slot,
      rw (le→leb s.poolnum c.poolmax v.bounded, ne s.poolnum c.poolmax room)
          (rw (e, next_slot) refl),
      e,
    )
  where
    ne : (a b : ℕ) → a < b → (a == b) ≡ false
    ne a b h = ground arith

pub get_elem?-insert_at :
    (i x : ℕ) (xs : List ℕ) → i ≤ length xs → get_elem? (insert_at i x xs) i ≡ some x
get_elem?-insert_at zero x xs h = refl
get_elem?-insert_at (suc i) x [] h = absurd (omega arith)
get_elem?-insert_at (suc i) x (y ∷ xs) h = get_elem?-insert_at i x xs (omega arith)

pub update_here : (pool : ℕ → Tuple) (slot : ℕ) (t : Tuple) → update pool slot t slot ≡ t
unfolding update
update_here pool slot t = ground arith

-- Where the pool is empty, the place in the order is the first.
pub first_place : (n i : ℕ) → i ≤ n → (if n == 0 then 0 else i) ≡ i
first_place zero i h = omega arith
first_place (suc n) i h = rw (ne n) refl
  where
    ne : (m : ℕ) → (suc m == 0) ≡ false
    ne m = ground arith

module _ (c : Config) (t : Tuple) (h : IsTuple t) where
  -- The slot stands at its place.
  pub added_place :
      (s p : Pool) (rec index : ℕ)
      → IsPool c s
      → index ≤ s.poolnum
      → IsAdded c s t rec index p
      → get_elem? (live p) index ≡ some rec
  added_place s p rec index v fits a =
      ap (λ xs. get_elem? xs index) a.order
      ∙ get_elem?-insert_at index rec (live s)
          (omega (arith, length-take s.poolnum s.tuplespace, v.full, v.bounded))

  pub added-Has :
      (s p : Pool) (rec index : ℕ)
      → IsPool c s
      → index ≤ s.poolnum
      → IsAdded c s t rec index p
      → Has p (tuple_key t)
  added-Has s p rec index v fits a = record {
    place = index;
    slot = rec;
    is_live = added_place s p rec index v fits a;
    has_key = ap tuple_key (a.content rec ∙ update_here s.pool rec t);
  }

  -- A write of the same key keeps what the pool has.
  pub update-Has :
      (p : Pool) (slot n : ℕ) (u : Tuple) (key : TupleKey)
      → tuple_key u ≡ tuple_key (p.pool slot)
      → Has p key
      → Has (record p { pool = update p.pool slot u; whitelisted = n }) key
  update-Has p slot n u key e a = record {
    place = a.place;
    slot = a.slot;
    is_live = a.is_live;
    has_key = sym (update-key p.pool slot a.slot u e) ∙ a.has_key;
  }

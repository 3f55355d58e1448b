-- ===== src/Pool/White/Load.antt =====
-- server/tuple.c: one round of `whitelist_load`, for a tuple that comes behind those in memory.
use x_grey.Prelude.{
  ℕ, ◌+◌, ◌≤◌, ◌<◌, Ordering, ◌≡◌, refl, ap, sym, subst, ◌∙◌, ◌≢◌, Option, some, List, [], ◌∷◌,
  ◌++◌, map, All, All-get, length, get_elem?, arith, Returns, Returns-bind,
}
use mathlib.Core.List.{map-append}
use x_grey.Sorted.Last.{AreBefore, last_place, insert_at-end}
use x_grey.Tuple.{Tuple}
use x_grey.Tuple.Key.{IsTuple, TupleKey, tuple_key, key_cmp}
use x_grey.Pool.{Config, Pool, update, counted, tuple_search, tuple_add}
use x_grey.Pool.Search.{IsPool, Sought, known, unknown, live, slot_key, tuple_search-Sought}
use x_grey.Pool.Add.{IsAdded, update_ne, tuple_add-IsAdded}
use x_grey.Pool.Gap.{fresh}
use x_grey.Pool.Kept.{counted-IsPool}
use x_grey.Pool.Room.{tuple_allocate_room, update_here}
use x_grey.Pool.White.{store_tuple, load_tuple, passed}
use x_grey.Pool.White.Told.{reread}

-- The tuples in memory, in their order.
abbrev pub entries : Pool → List Tuple
entries s = map s.pool (live s)

-- What is made of a tuple when its line is read.
abbrev pub restored : ℕ → Tuple → Tuple
restored now t = passed (reread now t)

-- A pool that has these tuples more, at the end.
pub record IsLonger (c : Config) (s : Pool) (us : List Tuple) (r : Pool) : Type 0 where
  pub in_order : IsPool c r
  pub is_entries : entries r ≡ entries s ++ us
  pub number : r.poolnum ≡ s.poolnum + length us

pub before_slots :
    (pool : ℕ → Tuple) (k : TupleKey) (xs : List ℕ)
    → AreBefore key_cmp tuple_key k (map pool xs)
    → AreBefore key_cmp (λ i. tuple_key (pool i)) k xs
before_slots pool k [] h = tt
before_slots pool k (x ∷ xs) h = (h.0, before_slots pool k xs h.1)

map-update :
    (pool after : ℕ → Tuple) (slot : ℕ) (t : Tuple) (xs : List ℕ)
    → ((i : ℕ) → after i ≡ update pool slot t i)
    → All (λ y. slot ≢ y) xs
    → map after xs ≡ map pool xs
map-update pool after slot t [] h g = refl
map-update pool after slot t (x ∷ xs) h g =
    rw (h x ∙ update_ne pool slot x t g.0, map-update pool after slot t xs h g.1) refl

reread-IsTuple : (now : ℕ) (t : Tuple) → IsTuple t → IsTuple (reread now t)
unfolding reread
reread-IsTuple now t h = record {
  ip_length = h.ip_length;
  from_length = h.from_length;
  to_length = h.to_length;
  from_fits = h.from_fits;
  to_fits = h.to_fits;
}

restored-IsTuple : (now : ℕ) (t : Tuple) → IsTuple t → IsTuple (restored now t)
restored-IsTuple now t h =
    let r = reread-IsTuple now t h in
    record {
      ip_length = r.ip_length;
      from_length = r.from_length;
      to_length = r.to_length;
      from_fits = r.from_fits;
      to_fits = r.to_fits;
    }

module _ (c : Config) (now clock : ℕ) (t : Tuple) (s : Pool) (v : IsPool c s) (h : IsTuple t)
    (room : s.poolnum < c.poolmax)
    (before : AreBefore key_cmp (slot_key s) (tuple_key t) (live s)) where
  added-IsLonger :
      (slot idx n : ℕ) (p : Pool)
      → get_elem? s.tuplespace s.poolnum ≡ some slot
      → length (live s) ≤ idx
      → IsAdded c (counted s) (restored now t) slot idx p
      → IsLonger c s (restored now t ∷ []) (record p { whitelisted = n })
  added-IsLonger slot idx n p free last a = record {
    in_order = record {
      tuples = a.in_order.tuples;
      full = a.in_order.full;
      bounded = a.in_order.bounded;
      ascending = a.in_order.ascending;
      distinct = a.in_order.distinct;
      slots = a.in_order.slots;
    };
    is_entries =
        ap (map p.pool) (a.order ∙ insert_at-end idx slot (live s) last)
        ∙ map-append p.pool (live s) (slot ∷ [])
        ∙ ap (λ (us : List Tuple). us ++ (p.pool slot ∷ []))
            (map-update s.pool p.pool slot (restored now t) (live s) a.content
              (fresh s.tuplespace s.poolnum s.poolnum slot free (omega arith) v.distinct))
        ∙ ap (λ (u : Tuple). entries s ++ (u ∷ []))
            (a.content slot ∙ update_here s.pool slot (restored now t));
    number = a.number;
  }

  Sought-IsLonger :
      (found : Option ℕ × ℕ)
      → Sought s (tuple_key t) found
      → Returns
          (store_tuple c now clock (reread now t) (counted s) found.0 found.1)
          (IsLonger c s (restored now t ∷ []))
  unfolding store_tuple reread
  Sought-IsLonger _ (known i slot e q) =
      let less : key_cmp.cmp (slot_key s slot) (tuple_key t) ≡ Ordering.lt =
        All-get _ (live s) i slot before e in
      absurd (ground (arith, less, q, key_cmp.cmp_refl (tuple_key t)))
  Sought-IsLonger _ (unknown i fits front behind) =
      let (slot, e, free) = tuple_allocate_room c clock (counted s) (counted-IsPool c s v) room in
      rw e (
        Returns-bind
          (tuple_add c (record (counted s) { pool = update s.pool slot (restored now t) }) slot i) _
          _ _
          (tuple_add-IsAdded c (counted s) (counted-IsPool c s v) (restored now t)
            (restored-IsTuple now t h) slot i room free fits front behind refl)
          (λ p a.
            added-IsLonger slot i (p.whitelisted + 1) p free
              (last_place key_cmp (slot_key s) (tuple_key t) i (live s) before behind) a))

  -- A tuple that is read, and comes behind all in memory, is made the last of them and is passed.
  pub load_tuple-IsLonger :
      Returns (load_tuple c now clock (reread now t) s) (IsLonger c s (restored now t ∷ []))
  unfolding load_tuple reread
  load_tuple-IsLonger =
      Returns-bind (tuple_search s (reread now t)) _ _ _
        (tuple_search-Sought c s (reread now t) v (reread-IsTuple now t h))
        (λ r k.
          subst
            (λ (p : Pool).
              Returns (store_tuple c now clock (reread now t) p r.1 r.2)
                (IsLonger c s (restored now t ∷ [])))
            (sym k.0) (Sought-IsLonger (r.1, r.2) k.1))

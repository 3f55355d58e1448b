-- ===== src/Server/Retry.antt =====
-- Greylisting in server/gld.c, over two requests for the same triple: the first is put off, and a
-- second is accepted as soon as the embargo is over.
use x_grey.Prelude.{
  ℕ, ◌+◌, ◌<◌, ◌≤◌, ◌≡◌, refl, sym, ap, subst, ◌∙◌, Option, none, some, Bool, false, Ordering, All,
  length-take, take, drop, arith, get_elem?, done, Run, Returns, Returns-bind, leb, if◌then◌else◌,
  ◌>>=◌,
}
use x_grey.Sorted.{look_key, find_key}
use x_grey.Sorted.Change.{find_key_there, find_key_absent}
use x_grey.Protocol.{Reason, greylist, ift_accept, ift_greylist}
use x_grey.Tuple.{Tuple}
use x_grey.Tuple.Key.{IsTuple, tuple_key, key_cmp, TupleKey}
use x_grey.Pool.{Config, Pool, update, counted, tuple_search, tuple_add}
use x_grey.Pool.Search.{IsPool, Sought, known, unknown, live, slot_key, tuple_search-Sought}
use x_grey.Pool.Add.{IsAdded, tuple_add-IsAdded}
use x_grey.Pool.Room.{tuple_allocate_room, update_here, first_place, get_elem?-insert_at}
use x_grey.Pool.Kept.{counted-IsPool}
use x_grey.Server.{Server, new_tuple, old_tuple, check_tuple}
use x_grey.Server.Embargo.{passes, IsDecided, old_tuple-IsDecided}
use x_grey.Server.Packet.{Request}

-- The slot that the pool has for a key, by a walk.
abbrev pub slot_of : TupleKey → Pool → Option ℕ
slot_of key p = find_key key_cmp (slot_key p) key (live p)

-- A search agrees with the walk.
Sought-slot_of :
    (c : Config) (s : Pool) (v : IsPool c s) (key : TupleKey) (found : Option ℕ × ℕ)
    → Sought s key found
    → slot_of key s ≡ found.0
Sought-slot_of c s v key _ (known i slot e q) =
    find_key_there key_cmp (slot_key s) key i (live s) slot e q v.ascending
Sought-slot_of c s v key _ (unknown i fits before behind) =
    find_key_absent key_cmp (slot_key s) key i (live s) before behind

-- What `check_tuple` does after the search.
abbrev pub answered :
    Config → Request → Bool → Tuple → Server → Option ℕ → ℕ → Run (Server × ℕ × Reason)
answered c req white t s none idx =
    new_tuple c req.clock white t idx (record s { tuples = counted s.tuples })
answered c req white t s (some slot) idx =
    done (old_tuple c req.now white slot (record s { tuples = counted s.tuples }))

module _ (c : Config) (s : Server) (t : Tuple) (v : IsPool c s.tuples) (h : IsTuple t)
    (req : Request) (white : Bool) where
  searched :
      (P : Server × ℕ × Reason → Type 0)
      → ((found : Option ℕ × ℕ)
          → Sought s.tuples (tuple_key t) found
          → Returns (answered c req white t s found.0 found.1) P)
      → Returns (check_tuple c req white t s) P
  unfolding check_tuple
  searched P f =
      Returns-bind (tuple_search s.tuples t) _ _ _ (tuple_search-Sought c s.tuples t v h)
        (λ r w. body r.0 r.1 r.2 w.0 (f (r.1, r.2) w.1))
    where
      body :
          (p : Pool) (found : Option ℕ) (idx : ℕ)
          → p ≡ counted s.tuples
          → Returns (answered c req white t s found idx) P
          → Returns
              (elim found [
                | none ↦ new_tuple c req.clock white t idx (record s { tuples = p })
                | some slot ↦ done (old_tuple c req.now white slot (record s { tuples = p }))
              ])
              P
      body p none idx e x =
          subst (λ q. Returns (new_tuple c req.clock white t idx (record s { tuples = q })) P)
            (sym e) x
      body p (some slot) idx e x =
          subst (λ q. P (old_tuple c req.now white slot (record s { tuples = q }))) (sym e) x

  -- A tuple that is in memory is found, and answered as the embargo has it.
  pub check_tuple-old_tuple :
      (slot : ℕ)
      → slot_of (tuple_key t) s.tuples ≡ some slot
      → Returns
          (check_tuple c req white t s)
          (λ r. r ≡ old_tuple c req.now white slot (record s { tuples = counted s.tuples }))
  check_tuple-old_tuple slot e = searched _ (λ found w.
      let same : found.0 ≡ some slot =
        sym (Sought-slot_of c s.tuples v (tuple_key t) found w) ∙ e in
      rw same refl)

-- What the first request of a triple leaves: the tuple is put off, and stands in the pool as it came.
pub record IsPutOff (c : Config) (t : Tuple) (r : Server × ℕ × Reason) : Type 0 where
  pub verdict : r.1 ≡ ift_greylist
  pub in_order : IsPool c r.0.tuples
  pub slot : ℕ
  pub found : slot_of (tuple_key t) r.0.tuples ≡ some slot
  pub stored : r.0.tuples.pool slot ≡ t

module _ (c : Config) (s : Server) (t : Tuple) (v : IsPool c s.tuples) (h : IsTuple t)
    (room : s.tuples.poolnum < c.poolmax) (pad : t.pad ≡ 0xDECAFBAD) where
  added-IsPutOff :
      (p : Pool) (rec index n : ℕ)
      → index ≤ s.tuples.poolnum
      → IsAdded c s.tuples t rec index p
      → IsPutOff c t (record s { tuples = p; greylisted = n }, ift_greylist, greylist)
  added-IsPutOff p rec index n fits a =
      let stored : p.pool rec ≡ t = a.content rec ∙ update_here s.tuples.pool rec t in
      record {
        verdict = refl;
        in_order = a.in_order;
        slot = rec;
        found =
            find_key_there key_cmp (slot_key p) (tuple_key t) index (live p) rec
              (ap (λ xs. get_elem? xs index) a.order
                ∙ get_elem?-insert_at index rec (live s.tuples) (
                    omega
                      (arith, length-take s.tuples.poolnum s.tuples.tuplespace, v.full, v.bounded)))
              (ap tuple_key stored) a.in_order.ascending;
        stored = stored;
      }

  pub new_tuple-IsPutOff :
      (clock idx : ℕ)
      → idx ≤ s.tuples.poolnum
      → All
          (λ x. look_key key_cmp (slot_key s.tuples) (tuple_key t) x ≡ Ordering.gt)
          (take idx (live s.tuples))
      → All
          (λ x. look_key key_cmp (slot_key s.tuples) (tuple_key t) x ≡ Ordering.lt)
          (drop idx (live s.tuples))
      → Returns (new_tuple c clock false t idx s) (IsPutOff c t)
  unfolding new_tuple
  new_tuple-IsPutOff clock idx fits before behind =
      let (slot, e, free) = tuple_allocate_room c clock s.tuples v room in
      rw (e, first_place s.tuples.poolnum idx fits)
        (Returns-bind
          (tuple_add c (record s.tuples { pool = update s.tuples.pool slot t }) slot idx) _ _ _
          (tuple_add-IsAdded c s.tuples v t h slot idx room free fits before behind pad)
          (λ p a. added-IsPutOff p slot idx (s.greylisted + 1) fits a))

module _ (c : Config) (s : Server) (t : Tuple) (v : IsPool c s.tuples) (h : IsTuple t)
    (room : s.tuples.poolnum < c.poolmax) (pad : t.pad ≡ 0xDECAFBAD) (req : Request)
    (absent : slot_of (tuple_key t) s.tuples ≡ none) where
  Sought-IsPutOff :
      (found : Option ℕ × ℕ)
      → Sought s.tuples (tuple_key t) found
      → found.0 ≡ none
      → Returns (answered c req false t s found.0 found.1) (IsPutOff c t)
  Sought-IsPutOff _ (known i slot e q) n = absurd (ground arith)
  Sought-IsPutOff _ (unknown i fits before behind) n =
      new_tuple-IsPutOff c (record s { tuples = counted s.tuples }) t (counted-IsPool c s.tuples v)
        h room pad req.clock i fits before behind

  -- A triple that the pool does not have yet is put off, and is then in the pool as it came.
  pub check_tuple-IsPutOff : Returns (check_tuple c req false t s) (IsPutOff c t)
  check_tuple-IsPutOff = searched c s t v h req false (IsPutOff c t) (λ found w.
      Sought-IsPutOff found w (sym (Sought-slot_of c s.tuples v (tuple_key t) found w) ∙ absent))

-- The answer on a tuple that stands in the pool as it was first put off.
decided :
    (c : Config) (now slot : ℕ) (t : Tuple) (s : Server) (r : Server × ℕ × Reason)
    → t.f.whitelist ≡ false
    → s.tuples.pool slot ≡ t
    → IsDecided c now slot false s r
    → r.1 ≡ (if leb (t.ctime + c.timeout_embargo) now then ift_accept else ift_greylist)
unfolding passes
decided c now slot t s r grey stored d =
    subst (λ (x : Tuple). r.1 ≡ (if passes c now false x then ift_accept else ift_greylist)) stored
      d.verdict
    ∙ rw grey refl

-- Two requests for a verdict, one after the other.
unfoldable pub ask_again : Config → Request → Tuple → Request → Tuple → Server → Run (ℕ × ℕ)
ask_again c first t second u s = check_tuple c first false t s >>= λ (s', v, _).
    check_tuple c second false u s' >>= λ (_, w, _). done (v, w)

-- The first request for a triple that the pool has room for and does not have is put off; the next
-- request for the same triple is accepted if it comes `timeout_embargo` or more after the first was
-- made, and is put off again if it comes sooner.
pub ask_again-check_tuple :
    (c : Config) (first second : Request) (t u : Tuple) (s : Server)
    → IsPool c s.tuples
    → s.tuples.poolnum < c.poolmax
    → slot_of (tuple_key t) s.tuples ≡ none
    → IsTuple t
    → IsTuple u
    → t.pad ≡ 0xDECAFBAD
    → t.f.whitelist ≡ false
    → tuple_key u ≡ tuple_key t
    → Returns (ask_again c first t second u s) (λ r. r ≡ (
      ift_greylist,
      if leb (t.ctime + c.timeout_embargo) second.now then ift_accept else ift_greylist,
    ))
unfolding ask_again
ask_again-check_tuple c first second t u s v room absent h g pad grey same =
    Returns-bind (check_tuple c first false t s) _ _ _
      (check_tuple-IsPutOff c s t v h room pad first absent)
      (λ r a.
        Returns-bind (check_tuple c second false u r.0) _ _ _
          (check_tuple-old_tuple c r.0 u a.in_order g second false a.slot
            (ap (λ k. slot_of k r.0.tuples) same ∙ a.found))
          (λ w e.
            let sure =
              decided c second.now a.slot t (record r.0 { tuples = counted r.0.tuples }) w grey
                a.stored
                (subst
                  (IsDecided c second.now a.slot false (record r.0 { tuples = counted r.0.tuples }))
                  (sym e)
                  (old_tuple-IsDecided c second.now a.slot false
                    (record r.0 { tuples = counted r.0.tuples }))) in
            rw (a.verdict, sure) refl))

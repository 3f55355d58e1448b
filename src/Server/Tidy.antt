-- ===== src/Server/Tidy.antt =====
-- server/gld.c: the slots that hold no entry stay tidy when a tuple is looked up, and made if it is
-- new.
use x_grey.Prelude.{
  ℕ, ◌+◌, ◌≤◌, ◌<◌, ◌≡◌, sym, subst, Option, none, some, Bool, false, Ordering, All, take, drop,
  get_elem?, arith, done, Returns, Returns-bind, Returns-impl, ltb,
}
use x_grey.Sorted.{look_key}
use x_grey.Protocol.{Reason}
use x_grey.Tuple.{Tuple}
use x_grey.Tuple.Key.{IsTuple, tuple_key, key_cmp}
use x_grey.Pool.{Config, Pool, update, counted, tuple_search, tuple_add}
use x_grey.Pool.Search.{IsPool, Sought, known, unknown, live, slot_key, tuple_search-Sought}
use x_grey.Pool.Add.{tuple_add-IsAdded}
use x_grey.Pool.Room.{tuple_allocate_room, first_place, added_place}
use x_grey.Pool.Kept.{counted-IsPool}
use x_grey.Pool.Spare.{IsTidy}
use x_grey.Pool.Tidy.{KeepsTidy, touched, touched-IsTidy, added-KeepsTidy}
use x_grey.Server.{Server, new_tuple, old_tuple, check_tuple, whiten}
use x_grey.Server.Packet.{Request}
use x_grey.Server.Remember.{either}

-- The same of the daemon that an answer leaves.
abbrev pub Keeps : Server → Server × ℕ × Reason → Type 0
Keeps s r = KeepsTidy s.tuples r.0.tuples

module _ (c : Config) (s : Server) (t : Tuple) (v : IsPool c s.tuples) (tidy : IsTidy s.tuples)
    (h : IsTuple t) where
  touched-KeepsTidy :
      (place slot n : ℕ) (u : Tuple)
      → get_elem? (live s.tuples) place ≡ some slot
      → KeepsTidy s.tuples (touched s.tuples slot n u)
  touched-KeepsTidy place slot n u e =
      let w = touched-IsTidy c s.tuples place slot n u v e tidy in
      record { tidy = w.0; used = omega (arith, w.1) }

  old_tuple-Keeps :
      (now place slot : ℕ) (white : Bool)
      → get_elem? (live s.tuples) place ≡ some slot
      → Keeps s (old_tuple c now white slot s)
  unfolding old_tuple
  old_tuple-Keeps now place slot white e =
      let u : Tuple = record (s.tuples.pool slot) { atime = now } in
      let turned = touched-KeepsTidy place slot (s.tuples.whitelisted + 1) (whiten u) e in
      let kept = touched-KeepsTidy place slot s.tuples.whitelisted u e in
      either (Keeps s) u.f.whitelist _ _ kept (
        either (Keeps s) white _ _ turned
          (either (Keeps s) (ltb now (u.ctime + c.timeout_embargo)) _ _ kept turned))

  new_tuple-Keeps :
      (clock idx : ℕ) (white : Bool)
      → t.f.remove ≡ false
      → s.tuples.poolnum < c.poolmax
      → t.pad ≡ 0xDECAFBAD
      → idx ≤ s.tuples.poolnum
      → All
          (λ x. look_key key_cmp (slot_key s.tuples) (tuple_key t) x ≡ Ordering.gt)
          (take idx (live s.tuples))
      → All
          (λ x. look_key key_cmp (slot_key s.tuples) (tuple_key t) x ≡ Ordering.lt)
          (drop idx (live s.tuples))
      → Returns (new_tuple c clock white t idx s) (Keeps s)
  unfolding new_tuple
  new_tuple-Keeps clock idx white plain room pad fits before behind =
      let (slot, e, free) = tuple_allocate_room c clock s.tuples v room in
      rw (e, first_place s.tuples.poolnum idx fits)
        (Returns-bind
          (tuple_add c (record s.tuples { pool = update s.tuples.pool slot t }) slot idx) _ _ _
          (tuple_add-IsAdded c s.tuples v t h slot idx room free fits before behind pad)
          (λ p a.
            let w = added-KeepsTidy c s.tuples p t slot idx v tidy free a in
            let place = added_place c t h s.tuples p slot idx v fits a in
            let white_tuple : Tuple = whiten (p.pool slot) in
            let again =
              touched-IsTidy c p idx slot (p.whitelisted + 1) white_tuple a.in_order place w.tidy in
            either (λ r. Returns r (Keeps s)) white _ _
              (record { tidy = again.0; used = omega (arith, again.1, w.used) }) w))

module _ (c : Config) (s : Server) (t : Tuple) (v : IsPool c s.tuples) (tidy : IsTidy s.tuples)
    (h : IsTuple t) (req : Request) (white : Bool) (room : s.tuples.poolnum < c.poolmax)
    (pad : t.pad ≡ 0xDECAFBAD) (plain : t.f.remove ≡ false) where
  abbrev searched : Server
  searched = record s { tuples = counted s.tuples }

  searched-IsPool : IsPool c (counted s.tuples)
  searched-IsPool = counted-IsPool c s.tuples v

  counted-Keeps : (r : Server × ℕ × Reason) → Keeps searched r → Keeps s r
  counted-Keeps r w = record { tidy = w.tidy; used = w.used }

  Sought-Keeps :
      (found : Option ℕ × ℕ)
      → Sought s.tuples (tuple_key t) found
      → Returns
          (elim found.0 [
            | none ↦ new_tuple c req.clock white t found.1 (record s { tuples = counted s.tuples })
            | some slot ↦
                done (old_tuple c req.now white slot (record s { tuples = counted s.tuples }))
          ])
          (Keeps s)
  Sought-Keeps _ (known i slot e q) =
      counted-Keeps (old_tuple c req.now white slot searched)
        (old_tuple-Keeps c searched t searched-IsPool tidy h req.now i slot white e)
  Sought-Keeps _ (unknown i fits before behind) =
      Returns-impl (new_tuple c req.clock white t i searched) (Keeps searched) (Keeps s)
        counted-Keeps
        (new_tuple-Keeps c searched t searched-IsPool tidy h req.clock i white plain room pad fits
          before behind)

  pub check_tuple-Keeps : Returns (check_tuple c req white t s) (Keeps s)
  unfolding check_tuple
  check_tuple-Keeps =
      Returns-bind (tuple_search s.tuples t) _ _ _ (tuple_search-Sought c s.tuples t v h) (λ r w.
        subst
          (λ (p : Pool).
            Returns
              (elim r.1 [
                | none ↦ new_tuple c req.clock white t r.2 (record s { tuples = p })
                | some slot ↦ done (old_tuple c req.now white slot (record s { tuples = p }))
              ])
              (Keeps s))
          (sym w.0) (Sought-Keeps (r.1, r.2) w.1))

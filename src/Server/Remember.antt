-- ===== src/Server/Remember.antt =====
-- The last part of `type_greylist` in server/gld.c: the tuple is looked up, and made if it is new.
use x_grey.Prelude.{
  ℕ, ◌+◌, ◌≤◌, ◌<◌, ◌≡◌, refl, sym, subst, ◌∙◌, Option, none, some, Bool, true, false, Ordering,
  All, take, drop, arith, done, Returns, Returns-bind, ltb, if◌then◌else◌,
}
use x_grey.Sorted.{look_key}
use x_grey.Protocol.{Reason, greylist, whitelist, ift_accept, ift_greylist}
use x_grey.Tuple.{Tuple}
use x_grey.Tuple.Key.{IsTuple, tuple_key, key_cmp, TupleKey}
use x_grey.Pool.{Config, Pool, update, counted, tuple_search, tuple_add}
use x_grey.Pool.Search.{IsPool, Sought, known, unknown, live, slot_key, tuple_search-Sought}
use x_grey.Pool.Add.{tuple_add-IsAdded}
use x_grey.Pool.Room.{Has, tuple_allocate_room, update_here, first_place, added-Has, update-Has}
use x_grey.Pool.Kept.{counted-IsPool, update-IsPool}
use x_grey.Server.{Server, new_tuple, old_tuple, check_tuple, whiten}
use x_grey.Server.Checks.{HasLists}
use x_grey.Server.Packet.{Request}

pub either {ℓ} :
    {A : Type ℓ} (P : A → Type 0) (b : Bool) (x y : A) → P x → P y → P (if b then x else y)
either P true x y p q = p
either P false x y p q = q

pub lists_kept :
    (s : Server) (p : Pool) (n : ℕ)
    → HasLists s
    → HasLists (record s { tuples = p; greylisted = n })
lists_kept s p n h = record {
  ips = h.ips;
  to_list = h.to_list;
  tod_list = h.tod_list;
  from_list = h.from_list;
  fromd_list = h.fromd_list;
}

-- What this part does to a daemon: everything stays in order, and the pool has the tuple.
pub record IsRemembered (c : Config) (key : TupleKey) (r : Server × ℕ × Reason) : Type 0 where
  pub in_order : IsPool c r.0.tuples
  pub lists : HasLists r.0
  pub has : Has r.0.tuples key
  pub verdict : r.1 ≤ ift_accept

module _ (c : Config) (s : Server) (t : Tuple) (v : IsPool c s.tuples) (l : HasLists s)
    (h : IsTuple t) where
  whiten-IsTuple : (u : Tuple) → IsTuple u → IsTuple (whiten u)
  whiten-IsTuple u g = record {
    ip_length = g.ip_length;
    from_length = g.from_length;
    to_length = g.to_length;
    from_fits = g.from_fits;
    to_fits = g.to_fits;
  }

  touched-IsTuple : (u : Tuple) (now : ℕ) → IsTuple u → IsTuple (record u { atime = now })
  touched-IsTuple u now g = record {
    ip_length = g.ip_length;
    from_length = g.from_length;
    to_length = g.to_length;
    from_fits = g.from_fits;
    to_fits = g.to_fits;
  }

  -- A write that keeps the key, in a pool that has the tuple.
  rewritten-IsRemembered :
      (p : Pool) (slot n m verdict : ℕ) (u : Tuple) (why : Reason)
      → IsPool c p
      → Has p (tuple_key t)
      → IsTuple u
      → tuple_key u ≡ tuple_key (p.pool slot)
      → verdict ≤ ift_accept
      → IsRemembered c (tuple_key t) (
        record s {
          tuples = record p { pool = update p.pool slot u; whitelisted = n };
          greylisted = m;
        },
        verdict,
        why,
      )
  rewritten-IsRemembered p slot n m verdict u why w a g e k = record {
    in_order = update-IsPool c p slot n u w g e;
    lists = lists_kept s (record p { pool = update p.pool slot u; whitelisted = n }) m l;
    has = update-Has c t h p slot n u (tuple_key t) e a;
    verdict = k;
  }

  old_tuple-IsRemembered :
      (now slot : ℕ) (white : Bool)
      → Has s.tuples (tuple_key t)
      → IsRemembered c (tuple_key t) (old_tuple c now white slot s)
  unfolding old_tuple
  old_tuple-IsRemembered now slot white a =
      let u : Tuple = record (s.tuples.pool slot) { atime = now } in
      let g = touched-IsTuple (s.tuples.pool slot) now (v.tuples slot) in
      let turned =
        rewritten-IsRemembered s.tuples slot (s.tuples.whitelisted + 1) s.greylisted ift_accept
          (whiten u) whitelist v a (whiten-IsTuple u g) refl (omega arith) in
      let kept_white =
        rewritten-IsRemembered s.tuples slot s.tuples.whitelisted s.greylisted ift_accept u
          whitelist v a g refl (omega arith) in
      let kept_grey =
        rewritten-IsRemembered s.tuples slot s.tuples.whitelisted s.greylisted ift_greylist u
          greylist v a g refl (omega arith) in
      either (IsRemembered c (tuple_key t)) u.f.whitelist _ _ kept_white (
        either (IsRemembered c (tuple_key t)) white _ _ turned (
          either (IsRemembered c (tuple_key t)) (ltb now (u.ctime + c.timeout_embargo)) _ _
            kept_grey turned))

  -- After the tuple is written to its slot and added.
  answered-IsRemembered :
      (p : Pool) (slot : ℕ) (white : Bool)
      → IsPool c p
      → Has p (tuple_key t)
      → p.pool slot ≡ t
      → Returns
          (if white
            then done (
              record s {
                tuples = record p {
                  pool = update p.pool slot (whiten (p.pool slot));
                  whitelisted = p.whitelisted + 1;
                };
                greylisted = s.greylisted + 1;
              },
              ift_accept,
              whitelist,
            )
            else done
                (record s { tuples = p; greylisted = s.greylisted + 1 }, ift_greylist, greylist))
          (IsRemembered c (tuple_key t))
  answered-IsRemembered p slot white w a e =
      either (λ r. Returns r (IsRemembered c (tuple_key t))) white _ _
        (rewritten-IsRemembered p slot (p.whitelisted + 1) (s.greylisted + 1) ift_accept
          (whiten (p.pool slot)) whitelist w a (whiten-IsTuple (p.pool slot) (w.tuples slot)) refl
          (omega arith))
        (record {
          in_order = w;
          lists = lists_kept s p (s.greylisted + 1) l;
          has = a;
          verdict = omega arith;
        })

  new_tuple-IsRemembered :
      (clock idx : ℕ) (white : Bool)
      → s.tuples.poolnum < c.poolmax
      → t.pad ≡ 0xDECAFBAD
      → idx ≤ s.tuples.poolnum
      → All
          (λ x. look_key key_cmp (slot_key s.tuples) (tuple_key t) x ≡ Ordering.gt)
          (take idx (live s.tuples))
      → All
          (λ x. look_key key_cmp (slot_key s.tuples) (tuple_key t) x ≡ Ordering.lt)
          (drop idx (live s.tuples))
      → Returns (new_tuple c clock white t idx s) (IsRemembered c (tuple_key t))
  unfolding new_tuple
  new_tuple-IsRemembered clock idx white room pad fits before behind =
      let (slot, e, free) = tuple_allocate_room c clock s.tuples v room in
      rw (e, first_place s.tuples.poolnum idx fits)
        (Returns-bind
          (tuple_add c (record s.tuples { pool = update s.tuples.pool slot t }) slot idx) _ _ _
          (tuple_add-IsAdded c s.tuples v t h slot idx room free fits before behind pad)
          (λ p a.
            answered-IsRemembered p slot white a.in_order
              (added-Has c t h s.tuples p slot idx v fits a)
              (a.content slot ∙ update_here s.tuples.pool slot t)))

module _ (c : Config) (s : Server) (t : Tuple) (v : IsPool c s.tuples) (l : HasLists s)
    (h : IsTuple t) (req : Request) (white : Bool) (room : s.tuples.poolnum < c.poolmax)
    (pad : t.pad ≡ 0xDECAFBAD) where
  searched : Server
  searched = record s { tuples = counted s.tuples }

  searched-IsPool : IsPool c (counted s.tuples)
  searched-IsPool = counted-IsPool c s.tuples v

  Sought-IsRemembered :
      (found : Option ℕ × ℕ)
      → Sought s.tuples (tuple_key t) found
      → Returns
          (elim found.0 [
            | none ↦ new_tuple c req.clock white t found.1 (record s { tuples = counted s.tuples })
            | some slot ↦
                done (old_tuple c req.now white slot (record s { tuples = counted s.tuples }))
          ])
          (IsRemembered c (tuple_key t))
  unfolding searched
  Sought-IsRemembered _ (known i slot e q) =
      old_tuple-IsRemembered c searched t searched-IsPool
        (lists_kept s (counted s.tuples) s.greylisted l) h req.now slot white
        (record { place = i; slot = slot; is_live = e; has_key = q })
  Sought-IsRemembered _ (unknown i fits before behind) =
      new_tuple-IsRemembered c searched t searched-IsPool
        (lists_kept s (counted s.tuples) s.greylisted l) h req.clock i white room pad fits before
        behind

  -- With room in the pool, looking a tuple up and making it if it is new returns; the verdict is to
  -- accept or to put off, everything stays in order, and the pool then has the tuple.
  pub check_tuple-IsRemembered :
      Returns (check_tuple c req white t s) (IsRemembered c (tuple_key t))
  unfolding check_tuple
  check_tuple-IsRemembered =
      Returns-bind (tuple_search s.tuples t) _ _ _ (tuple_search-Sought c s.tuples t v h) (λ r w.
        subst
          (λ (p : Pool).
            Returns
              (elim r.1 [
                | none ↦ new_tuple c req.clock white t r.2 (record s { tuples = p })
                | some slot ↦ done (old_tuple c req.now white slot (record s { tuples = p }))
              ])
              (IsRemembered c (tuple_key t)))
          (sym w.0) (Sought-IsRemembered (r.1, r.2) w.1))

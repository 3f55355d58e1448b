-- ===== src/Server/Removal.antt =====
-- `type_tuple_remove` of server/gld.c: it sets the flag of an entry, which the next expiry takes.
use x_grey.Prelude.{
  ℕ, ◌+◌, ◌≤◌, ◌<◌, refl, sym, subst, Option, none, some, true, length, arith, done, Returns,
  Returns-bind, ◌>>=◌,
}
use x_grey.Protocol.{greylist, cmd_tuple_remove_resp}
use x_grey.Tuple.{Tuple}
use x_grey.Tuple.Key.{IsTuple, tuple_key}
use x_grey.Pool.{Config, Pool, update, counted, tuple_search}
use x_grey.Pool.Search.{IsPool, Sought, known, unknown, tuple_search-Sought}
use x_grey.Pool.Kept.{counted-IsPool, update-IsPool}
use x_grey.Pool.Spare.{freed, IsTidy}
use x_grey.Pool.Tidy.{touched, touched-IsTidy}
use x_grey.Server.{Server, type_tuple_remove}
use x_grey.Server.Checks.{HasLists}
use x_grey.Server.Packet.{Request, Reply, refusal, greylist_sanitize_req}
use x_grey.Server.Sanitize.{OnSome, IsWhole, greylist_sanitize_req-IsWhole}
use x_grey.Server.Remember.{lists_kept}

-- In order, with `n` slots to spare that were never used, and one more.
pub record IsReady (c : Config) (n : ℕ) (s : Server) : Type 0 where
  pub in_order : IsPool c s.tuples
  pub tidy : IsTidy s.tuples
  pub lists : HasLists s
  pub unused : s.tuples.poolnum + freed s.tuples + n < c.poolmax

-- The flag set.
abbrev flag : Tuple → Tuple
flag u = record u { f = record u.f { remove = true } }

flag-IsTuple : (u : Tuple) → IsTuple u → IsTuple (flag u)
flag-IsTuple u g = record {
  ip_length = g.ip_length;
  from_length = g.from_length;
  to_length = g.to_length;
  from_fits = g.from_fits;
  to_fits = g.to_fits;
}

module _ (c : Config) (n : ℕ) (req : Request) (s : Server) (w : IsReady c n s) where
  -- The tuples with the flag of one set, if it was found.
  abbrev flagged_pool : Pool → Option ℕ → Pool
  flagged_pool p stored = elim stored [
    | none ↦ p
    | some slot ↦ record p { pool = update p.pool slot (flag (p.pool slot)) }
  ]

  removed-IsReady :
      (key : Tuple) (found : Option ℕ × ℕ)
      → Sought s.tuples (tuple_key key) found
      → IsReady c n (record s { tuples = flagged_pool (counted s.tuples) found.0 })
  removed-IsReady key _ (unknown i fits before behind) = record {
    in_order = counted-IsPool c s.tuples w.in_order;
    tidy = w.tidy;
    lists = lists_kept s (counted s.tuples) s.greylisted w.lists;
    unused = w.unused;
  }
  removed-IsReady key _ (known i slot e q) =
      let p = counted s.tuples in
      let v = counted-IsPool c s.tuples w.in_order in
      let u = flag (p.pool slot) in
      let t = touched-IsTidy c p i slot p.whitelisted u v e w.tidy in
      record {
        in_order =
            update-IsPool c p slot p.whitelisted u v (flag-IsTuple (p.pool slot) (v.tuples slot))
              refl;
        tidy = t.0;
        lists = lists_kept s (touched p slot p.whitelisted u) s.greylisted w.lists;
        unused = omega (arith, t.1, w.unused);
      }

  pub type_tuple_remove-IsReady :
      req.size ≤ length req.buffer → Returns (type_tuple_remove req s) (λ r. IsReady c n r.0)
  unfolding type_tuple_remove
  type_tuple_remove-IsReady fits =
      answer (greylist_sanitize_req req) (greylist_sanitize_req-IsWhole req fits)
    where
      answer :
          (made : Option Tuple)
          → OnSome IsWhole made
          → Returns {A = Server × Reply}
              (elim made [
                | none ↦ done (s, refusal)
                | some t ↦ tuple_search s.tuples t >>= λ (p, stored, idx). done (
                  record s { tuples = flagged_pool p stored },
                  record { type = cmd_tuple_remove_resp; response = 0; why = greylist },
                )
              ])
              (λ r. IsReady c n r.0)
      answer none h = w
      answer (some t) h =
          Returns-bind (tuple_search s.tuples t) _ _ _
            (tuple_search-Sought c s.tuples t w.in_order h.tuple)
            (λ r g.
              subst (λ (p : Pool). IsReady c n (record s { tuples = flagged_pool p r.1 })) (sym g.0)
                (removed-IsReady t (r.1, r.2) g.1))

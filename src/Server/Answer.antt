-- ===== src/Server/Answer.antt =====
-- `type_greylist` of server/gld.c as a whole, on a daemon whose lists and pool are in order.
use x_grey.Prelude.{
  ℕ, ◌+◌, ◌*◌, ◌≤◌, ◌<◌, ◌≡◌, refl, sym, subst, Option, none, some, Bool, List, [], ◌∷◌, arith,
  length, length-append, Run, done, Returns, inl, inr, ◌⊎◌, Returns-impl, Returns-bind, ◌>>=◌,
}
use x_grey.Protocol.{Reason, Command}
use x_grey.IpTree.{address_bits, byte_bits}
use x_grey.Tuple.{Tuple}
use x_grey.Tuple.Key.{IsTuple, tuple_key, TupleKey}
use x_grey.Pool.{Config}
use x_grey.Pool.Search.{IsPool}
use x_grey.Pool.Room.{Has}
use x_grey.Server.{
  Server, Verdict, judge, or_else, check_from, check_to, check_ip, check_tuple, type_greylist,
}
use x_grey.Server.Checks.{
  HasLists, IsChecked, check_ip-IsChecked, check_from-IsChecked, check_to-IsChecked,
}
use x_grey.Server.Remember.{IsRemembered, check_tuple-IsRemembered}
use x_grey.Server.Packet.{Request, Reply, refusal, greylist_sanitize_req}
use x_grey.Server.Sanitize.{OnSome, IsWhole, greylist_sanitize_req-IsWhole}

pub length-address_bits : (xs : List ℕ) → length (address_bits xs) ≡ 8 * length xs
unfolding address_bits byte_bits
length-address_bits [] = refl
length-address_bits (x ∷ xs) =
    omega (arith, length-append (byte_bits x) (address_bits xs), length-address_bits xs)

-- What the checks give for a tuple: a verdict that is one of the three, and the pool and the lists in
-- order; where the verdict is to put off, the pool has the tuple.
pub record IsJudged (c : Config) (key : TupleKey) (r : Server × ℕ × Reason) : Type 0 where
  pub in_order : IsPool c r.0.tuples
  pub lists : HasLists r.0
  pub verdict : r.1 < 3
  pub put_off : r.1 ≡ 0 → Has r.0.tuples key

module _ (c : Config) (t : Tuple) (h : IsTuple t) (req : Request) (white : Bool)
    (pad : t.pad ≡ 0xDECAFBAD) where
  -- The state between two checks.
  record IsOpen (s : Server) : Type 0 where
    in_order : IsPool c s.tuples
    lists : HasLists s
    room : s.tuples.poolnum < c.poolmax

  remembered-IsJudged :
      (s : Server) → IsOpen s → Returns (check_tuple c req white t s) (IsJudged c (tuple_key t))
  remembered-IsJudged s o =
      Returns-impl (check_tuple c req white t s) (IsRemembered c (tuple_key t)) _
        (λ r w. record {
          in_order = w.in_order;
          lists = w.lists;
          verdict = omega (arith, w.verdict);
          put_off = λ e. w.has;
        })
        (check_tuple-IsRemembered c s t o.in_order o.lists h req white o.room pad)

  checked-IsJudged :
      (s : Server) (hl : HasLists s) (a : Server × Verdict)
      (next : Server → Run (Server × ℕ × Reason))
      → IsOpen s
      → IsChecked s t hl a
      → ((s' : Server) → IsOpen s' → Returns (next s') (IsJudged c (tuple_key t)))
      → Returns (or_else a next) (IsJudged c (tuple_key t))
  checked-IsJudged s hl (s', none) next o w f = f s' (still s' w)
    where
      still : (s' : Server) → IsChecked s t hl (s', none) → IsOpen s'
      still s' w = record {
        in_order = subst (IsPool c) (sym w.tuples) o.in_order;
        lists = w.lists;
        room = subst (λ p. p.poolnum < c.poolmax) (sym w.tuples) o.room;
      }
  checked-IsJudged s hl (s', some (v, why)) next o w f = record {
    in_order = subst (IsPool c) (sym w.tuples) o.in_order;
    lists = w.lists;
    verdict = w.verdict.0;
    put_off = λ e. elim (w.verdict.1 e) [ ];
  }

  -- With the pool and the lists of the daemon in order and room in the pool, the checks of a whole
  -- tuple return one of the three verdicts and leave all in order; and a tuple that is put off is
  -- then in the pool.
  pub judge-IsJudged :
      (s : Server)
      → IsPool c s.tuples
      → HasLists s
      → s.tuples.poolnum < c.poolmax
      → Returns (judge c req white t s) (IsJudged c (tuple_key t))
  unfolding judge
  judge-IsJudged s v l room =
      step (check_ip s t) s l (record { in_order = v; lists = l; room = room })
        (check_ip-IsChecked s t l (omega (arith, length-address_bits t.ip, h.ip_length))) _
        (λ s' o. step (check_from s' t) s' o.lists o (check_from-IsChecked s' t o.lists) _ (λ s'' p.
          step (check_to s'' t) s'' p.lists p (check_to-IsChecked s'' t p.lists) _
            remembered-IsJudged))
    where
      step :
          (r : Run (Server × Verdict)) (s : Server) (l : HasLists s)
          → IsOpen s
          → Returns r (IsChecked s t l)
          → (next : Server → Run (Server × ℕ × Reason))
          → ((s' : Server) → IsOpen s' → Returns (next s') (IsJudged c (tuple_key t)))
          → Returns (r >>= λ a. or_else a next) (IsJudged c (tuple_key t))
      step r s l o w next f = Returns-bind r _ _ _ w (λ a g. checked-IsJudged s l a next o g f)

-- What a request of a tuple does to a daemon, and the reply.
pub record IsReplied (c : Config) (r : Server × Reply) : Type 0 where
  pub in_order : IsPool c r.0.tuples
  pub lists : HasLists r.0
  pub reply : (r.1 ≡ refusal) ⊎ (r.1.response < 3)

-- With the pool and the lists of the daemon in order, room in the pool, and a datagram that fits the
-- receive buffer, a request for a verdict returns and leaves all in order; the reply is one of the
-- three verdicts, or the refusal of bad data.
pub type_greylist-IsReplied :
    (c : Config) (req : Request) (white : Bool) (response : Command) (s : Server)
    → req.size ≤ length req.buffer
    → IsPool c s.tuples
    → HasLists s
    → s.tuples.poolnum < c.poolmax
    → Returns (type_greylist c req white response s) (IsReplied c)
unfolding type_greylist
type_greylist-IsReplied c req white response s fits v l room =
    answer (greylist_sanitize_req req) (greylist_sanitize_req-IsWhole req fits)
  where
    counted : Server
    counted = record s { requests = s.requests + 1; req_cucurrent = s.req_cucurrent + 1 }

    answer :
        (made : Option Tuple)
        → OnSome IsWhole made
        → Returns
            (elim made [
              | none ↦ done (s, refusal)
              | some t ↦ judge c req white t counted >>= λ (s', v, why).
                  done (s', record { type = response; response = v; why = why })
            ])
            (IsReplied c)
    answer none w = record { in_order = v; lists = l; reply = inl refl }
    answer (some t) w =
        Returns-bind (judge c req white t counted) _ _ _
          (judge-IsJudged c t w.tuple req white w.pad counted v
            (record {
              ips = l.ips;
              to_list = l.to_list;
              tod_list = l.tod_list;
              from_list = l.from_list;
              fromd_list = l.fromd_list;
            })
            room)
          (λ r j. record { in_order = j.in_order; lists = j.lists; reply = inr j.verdict })

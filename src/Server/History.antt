-- ===== src/Server/History.antt =====
-- server/gld.c and server/signals.c: a daemon over a sequence of requests and alarms.
use x_grey.Prelude.{
  ℕ, suc, ◌+◌, ◌≤◌, ◌<◌, ◌≡◌, refl, sym, ◌∙◌, subst, Option, none, some, Bool, List, [], ◌∷◌, All,
  length, arith, Run, done, Returns, Returns-bind, Returns-and, ◌>>=◌,
}
use x_grey.Protocol.{Reason, Command}
use x_grey.Tuple.{Tuple}
use x_grey.Pool.{Config, Pool}
use x_grey.Pool.Search.{IsPool}
use x_grey.Pool.Spare.{IsTidy}
use x_grey.Pool.Tidy.{KeepsTidy}
use x_grey.Server.{
  Server, Verdict, judge, or_else, check_from, check_to, check_ip, check_tuple, type_greylist,
  type_tuple_remove,
}
use x_grey.Server.Alarm.{handle_sigalrm}
use x_grey.Server.Answer.{type_greylist-IsReplied, length-address_bits}
use x_grey.Server.Checks.{
  HasLists, IsChecked, check_ip-IsChecked, check_from-IsChecked, check_to-IsChecked,
}
use x_grey.Server.Housekeeping.{handle_sigalrm-IsCleaned}
use x_grey.Server.Packet.{Request, Reply, refusal, greylist_sanitize_req}
use x_grey.Server.Sanitize.{OnSome, IsWhole, greylist_sanitize_req-IsWhole}
use x_grey.Server.Removal.{IsReady, type_tuple_remove-IsReady}
use x_grey.Server.Tidy.{check_tuple-Keeps}

-- What reaches the daemon: a request for a verdict, with whether its type is CMD_WHITELIST and the
-- type of the reply, a request to remove a tuple, or the alarm, with what time(NULL) returns.
pub data Event : Type 0 where
  asks : Request → Bool → Command → Event
  removes : Request → Event
  alarms : ℕ → Event

-- The state after an event.
unfoldable pub meet : Config → Event → Server → Run Server
meet c (asks req white response) s = type_greylist c req white response s >>= λ (s', r). done s'
meet c (removes req) s = type_tuple_remove req s >>= λ (s', r). done s'
meet c (alarms now) s = handle_sigalrm c now s >>= λ (s', saved). done s'

unfoldable pub live_through : Config → List Event → Server → Run Server
live_through c [] s = done s
live_through c (e ∷ es) s = meet c e s >>= live_through c es

-- The requests among the events.
unfoldable pub questions : List Event → ℕ
questions [] = 0
questions (asks req white response ∷ es) = suc (questions es)
questions (removes req ∷ es) = questions es
questions (alarms now ∷ es) = questions es

questions-cons :
    (e : Event) (es : List Event) → questions (e ∷ es) ≡ questions (e ∷ []) + questions es
unfolding questions
questions-cons (asks req white response) es = omega arith
questions-cons (removes req) es = omega arith
questions-cons (alarms now) es = omega arith

-- Each datagram fits the receive buffer.
abbrev pub Fits : Event → Type 0
Fits (asks req white response) = req.size ≤ length req.buffer
Fits (removes req) = req.size ≤ length req.buffer
Fits (alarms now) = Unit

module _ (c : Config) (t : Tuple) (h : IsWhole t) (req : Request) (white : Bool) (p : Pool)
    (v : IsPool c p) (tidy : IsTidy p) (room : p.poolnum < c.poolmax) where
  -- What any answer makes of the tuples `p`.
  abbrev Kept : Server × ℕ × Reason → Type 0
  Kept r = KeepsTidy p r.0.tuples

  same-Kept : (s : Server) → s.tuples ≡ p → KeepsTidy p s.tuples
  same-Kept s e = rw e (record { tidy = tidy; used = omega arith })

  last-Kept : (s : Server) → HasLists s → s.tuples ≡ p → Returns (check_tuple c req white t s) Kept
  last-Kept s l e =
      subst (λ (q : Pool). Returns (check_tuple c req white t s) (λ r. KeepsTidy q r.0.tuples)) e
        (check_tuple-Keeps c s t (subst (IsPool c) (sym e) v) (subst IsTidy (sym e) tidy) h.tuple
          req white (subst (λ (q : Pool). q.poolnum < c.poolmax) (sym e) room) h.pad h.unflagged)

  opened :
      (s : Server) (l : HasLists s) (a : Server × Verdict)
      (next : Server → Run (Server × ℕ × Reason))
      → s.tuples ≡ p
      → IsChecked s t l a
      → ((s' : Server) → HasLists s' → s'.tuples ≡ p → Returns (next s') Kept)
      → Returns (or_else a next) Kept
  opened s l (s', none) next e w f = f s' w.lists (w.tuples ∙ e)
  opened s l (s', some (verdict, why)) next e w f = same-Kept s' (w.tuples ∙ e)

  step :
      (r : Run (Server × Verdict)) (s : Server) (l : HasLists s)
      → s.tuples ≡ p
      → Returns r (IsChecked s t l)
      → (next : Server → Run (Server × ℕ × Reason))
      → ((s' : Server) → HasLists s' → s'.tuples ≡ p → Returns (next s') Kept)
      → Returns (r >>= λ a. or_else a next) Kept
  step r s l e w next f = Returns-bind r _ _ _ w (λ a g. opened s l a next e g f)

  judge-Kept : (s : Server) → HasLists s → s.tuples ≡ p → Returns (judge c req white t s) Kept
  unfolding judge
  judge-Kept s l e =
      step (check_ip s t) s l e
        (check_ip-IsChecked s t l (omega (arith, length-address_bits t.ip, h.tuple.ip_length))) _
        (λ s' l' e'.
          step (check_from s' t) s' l' e' (check_from-IsChecked s' t l') _ (λ s'' l'' e''.
            step (check_to s'' t) s'' l'' e'' (check_to-IsChecked s'' t l'') _ last-Kept))

module _ (c : Config) where
  -- A request uses one slot at most.
  type_greylist-KeepsTidy :
      (req : Request) (white : Bool) (response : Command) (s : Server)
      → req.size ≤ length req.buffer
      → IsPool c s.tuples
      → IsTidy s.tuples
      → HasLists s
      → s.tuples.poolnum < c.poolmax
      → Returns (type_greylist c req white response s) (λ r. KeepsTidy s.tuples r.0.tuples)
  unfolding type_greylist
  type_greylist-KeepsTidy req white response s fits v tidy l room =
      answer (greylist_sanitize_req req) (greylist_sanitize_req-IsWhole req fits)
    where
      counted : Server
      counted = record s { requests = s.requests + 1; req_cucurrent = s.req_cucurrent + 1 }

      answer :
          (made : Option Tuple)
          → OnSome IsWhole made
          → Returns {A = Server × Reply}
              (elim made [
                | none ↦ done (s, refusal)
                | some t ↦ judge c req white t counted >>= λ (s', v, why).
                    done (s', record { type = response; response = v; why = why })
              ])
              (λ r. KeepsTidy s.tuples r.0.tuples)
      answer none w = record { tidy = tidy; used = omega arith }
      answer (some t) w =
          Returns-bind (judge c req white t counted) _ _ _
            (judge-Kept c t w req white s.tuples v tidy room counted
              (record {
                ips = l.ips;
                to_list = l.to_list;
                tod_list = l.tod_list;
                from_list = l.from_list;
                fromd_list = l.fromd_list;
              })
              refl)
            (λ r j. j)

  meet-IsReady :
      (e : Event) (n : ℕ) (s : Server)
      → Fits e
      → IsReady c (questions (e ∷ []) + n) s
      → Returns (meet c e s) (IsReady c n)
  unfolding meet questions
  meet-IsReady (asks req white response) n s fits w =
      let room : s.tuples.poolnum < c.poolmax = omega (arith, w.unused) in
      Returns-bind (type_greylist c req white response s) _ _ (IsReady c n)
        (Returns-and (type_greylist c req white response s) _ _
          (type_greylist-IsReplied c req white response s fits w.in_order w.lists room)
          (type_greylist-KeepsTidy req white response s fits w.in_order w.tidy w.lists room))
        (λ r g. record {
          in_order = g.0.in_order;
          tidy = g.1.tidy;
          lists = g.0.lists;
          unused = omega (arith, g.1.used, w.unused);
        })
  meet-IsReady (removes req) n s fits w =
      let none_asked : 0 + n ≡ n = omega arith in
      Returns-bind (type_tuple_remove req s) _ _ (IsReady c n)
        (type_tuple_remove-IsReady c n req s (subst (λ (m : ℕ). IsReady c m s) none_asked w) fits)
        (λ r g. g)
  meet-IsReady (alarms now) n s fits w =
      Returns-bind (handle_sigalrm c now s) _ _ (IsReady c n)
        (handle_sigalrm-IsCleaned c now s w.in_order w.tidy (omega (arith, w.unused)) w.lists)
        (λ r g. record {
          in_order = g.purged.in_order;
          tidy = g.purged.tidy;
          lists = g.lists;
          unused = omega (arith, g.purged.conserved, w.unused);
        })

  -- If the daemon is in order, and more of its slots were never used than there are requests for a
  -- verdict to come, it lives through every sequence of such requests, of requests to remove a tuple
  -- and of alarms, with any datagrams that fit the receive buffer: no assertion fails, and it is in
  -- order at the end, with a slot that was never used.
  pub live_through-IsReady :
      (es : List Event) (s : Server)
      → All Fits es
      → IsReady c (questions es) s
      → Returns (live_through c es s) (IsReady c 0)
  unfolding live_through questions
  live_through-IsReady [] s fits w = w
  live_through-IsReady (e ∷ es) s fits w =
      Returns-bind (meet c e s) (live_through c es) (IsReady c (questions es)) (IsReady c 0)
        (meet-IsReady e (questions es) s fits.0
          (subst (λ (n : ℕ). IsReady c n s) (questions-cons e es) w))
        (λ s' w'. live_through-IsReady es s' fits.1 w')

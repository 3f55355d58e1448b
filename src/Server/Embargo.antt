-- ===== src/Server/Embargo.antt =====
-- What `type_greylist` of server/gld.c decides for a tuple that is in memory.
use x_grey.Prelude.{ℕ, ◌+◌, ◌≡◌, Bool, ◌||◌, arith, leb, if◌then◌else◌}
use x_grey.Protocol.{Reason, ift_accept, ift_greylist}
use x_grey.Tuple.{Tuple}
use x_grey.Pool.{Config, update}
use x_grey.Server.{Server, old_tuple}

-- The policy: a tuple passes that has passed before, that the request whitelists, or whose embargo
-- is over.
unfoldable pub passes : Config → ℕ → Bool → Tuple → Bool
passes c now white t = t.f.whitelist || (white || leb (t.ctime + c.timeout_embargo) now)

-- What the answer `r` says of the tuple that was in `slot`.
pub record IsDecided (c : Config) (now slot : ℕ) (white : Bool) (s : Server)
    (r : Server × ℕ × Reason) : Type 0 where
  pub verdict : r.1 ≡ (if passes c now white (s.tuples.pool slot) then ift_accept else ift_greylist)
  pub passed : (r.0.tuples.pool slot).f.whitelist ≡ passes c now white (s.tuples.pool slot)
  pub accessed : (r.0.tuples.pool slot).atime ≡ now
  pub created : (r.0.tuples.pool slot).ctime ≡ (s.tuples.pool slot).ctime
  pub counted :
      r.0.tuples.whitelisted + (if (s.tuples.pool slot).f.whitelist then 1 else 0)
      ≡ s.tuples.whitelisted + (if passes c now white (s.tuples.pool slot) then 1 else 0)

-- A tuple in memory is accepted exactly if the policy lets it pass, and put off if not; then its
-- flag F_WHITELIST says whether it passed, its access time is now, its creation time is kept, and
-- `g_whitelisted` has grown by one exactly if the flag is new.
pub old_tuple-IsDecided :
    (c : Config) (now slot : ℕ) (white : Bool) (s : Server)
    → IsDecided c now slot white s (old_tuple c now white slot s)
unfolding old_tuple passes update
old_tuple-IsDecided c now slot white s = record {
  verdict = ground arith;
  passed = ground arith;
  accessed = ground arith;
  created = ground arith;
  counted = ground arith;
}

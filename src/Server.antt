-- ===== src/Server.antt =====
-- server/gld.c: the greylist daemon's globals and its handling of a request.
pub mod Packet
pub mod Lists
pub mod Ordered
pub mod Checks
pub mod Children
pub mod Remember
pub mod Answer
pub mod Embargo
pub mod Retry
pub mod Start
pub mod Sanitize
pub mod Alarm
pub mod Housekeeping
pub mod Tidy
pub mod Removal
pub mod Fresh
pub mod History
pub mod Files
pub mod Saved
pub mod Restart
pub mod Stop
pub mod Stopped
use x_grey.Prelude.{
  ℕ, ◌+◌, Option, none, some, Bool, true, false, ◌&&◌, not, List, [], ◌∷◌, ◌==◌, ltb, if◌then◌else◌,
  Run, done, abort, assert, ◌>>=◌,
}
use x_grey.Protocol.{
  Reason, ip, from, from_domain, to, to_domain, greylist, whitelist, no_reason, ift_greylist,
  ift_accept, Command, cmd_tuple_remove_resp,
}
use x_grey.Tuple.{Tuple, Flags}
use x_grey.Pool
use x_grey.Pool.{Config, Pool, update}
use x_grey.IpTree.{IpList, ip_match}
use x_grey.EmailDomain.{EList, Counts, count_cmd, consult}
use Packet.{Request, Reply, greylist_sanitize_req, refusal}

-- The globals of server/globals.c that change while the daemon runs.
pub record Server : Type 0 where
  pub tuples : Pool
  pub ips : IpList
  pub ip_cmdcnt : Counts
  pub to_list : EList
  pub tod_list : EList
  pub from_list : EList
  pub fromd_list : EList
  pub requests : ℕ
  pub req_cu : ℕ
  pub req_cucurrent : ℕ
  pub req_cumax : ℕ
  pub cleanup_count : ℕ
  pub greylisted : ℕ
  pub tuples_read_cu : ℕ
  pub tuples_read_cumax : ℕ
  pub tuples_write_cu : ℕ
  pub tuples_write_cumax : ℕ
  pub time_savestate : ℕ

-- The string that starts an array of bytes.
unfoldable pub c_str : List ℕ → List ℕ
c_str [] = []
c_str (b ∷ bs) = let rest = c_str bs in if b == 0 then [] else b ∷ rest

-- What follows the first '@', by `strchr` and `at + 1`.
unfoldable pub after_at : List ℕ → Option (List ℕ)
after_at [] = none
after_at (b ∷ bs) = if b == b'@' then some bs else after_at bs

-- A verdict with its reason settles a request; `none` lets the next check decide.
abbrev pub Verdict : Type 0
Verdict = Option (ℕ × Reason)

-- The checks of a sender, and of a recipient: the list of addresses, and unless that has the
-- address, the list of domains.
unfoldable pub check_domain : EList → List ℕ → Reason → Run (EList × Verdict)
unfolding after_at consult
check_domain dl text why = elim (after_at text) [
  | none ↦ done (dl, none)
  | some domain ↦ consult dl domain >>= λ (dl', found, v).
      done (dl', if v == ift_greylist then none else some (v, why))
]

unfoldable pub check_address :
    EList → EList → List ℕ → Reason → Reason → Run (EList × EList × Verdict)
unfolding check_domain consult
check_address l dl text why dwhy = consult l text >>= λ (l', found, v).
    if not (v == ift_greylist)
    then done (l', dl, some (v, why))
    else if found
    then done (l', dl, none)
    else (check_domain dl text dwhy >>= λ (dl', verdict). done (l', dl', verdict))

unfoldable pub check_from : Server → Tuple → Run (Server × Verdict)
unfolding check_address c_str
check_from s t =
    check_address s.from_list s.fromd_list (c_str t.from) from from_domain >>= λ (l, dl, verdict).
    done (record s { from_list = l; fromd_list = dl }, verdict)

unfoldable pub check_to : Server → Tuple → Run (Server × Verdict)
unfolding check_address c_str
check_to s t = check_address s.to_list s.tod_list (c_str t.to) to to_domain >>= λ (l, dl, verdict).
    done (record s { to_list = l; tod_list = dl }, verdict)

abbrev pub whiten : Tuple → Tuple
whiten t = record t { f = record t.f { whitelist = true } }

-- A tuple that is not in memory: it gets a slot, at the place that the search returned.
unfoldable pub new_tuple : Config → ℕ → Bool → Tuple → ℕ → Server → Run (Server × ℕ × Reason)
unfolding update
new_tuple c clock white t idx s = Pool.tuple_allocate c clock s.tuples >>= λ (p, slot).
    let place : ℕ = if p.poolnum == 0 then 0 else idx in
    Pool.tuple_add c (record p { pool = update p.pool slot t }) slot place >>= λ p'.
    if white
    then done (
      record s {
        tuples = record p' {
          pool = update p'.pool slot (whiten (p'.pool slot));
          whitelisted = p'.whitelisted + 1;
        };
        greylisted = s.greylisted + 1;
      },
      ift_accept,
      whitelist,
    )
    else done (record s { tuples = p'; greylisted = s.greylisted + 1 }, ift_greylist, greylist)

-- A tuple in memory, at `slot`.
unfoldable pub old_tuple : Config → ℕ → Bool → ℕ → Server → Server × ℕ × Reason
unfolding update
old_tuple c now white slot s =
    let p = s.tuples in
    let t : Tuple = record (p.pool slot) { atime = now } in
    let turned : Pool = record p {
      pool = update p.pool slot (whiten t);
      whitelisted = p.whitelisted + 1;
    } in
    let kept : Pool = record p { pool = update p.pool slot t } in
    if t.f.whitelist
    then (record s { tuples = kept }, ift_accept, whitelist)
    else if white
    then (record s { tuples = turned }, ift_accept, whitelist)
    else if ltb now (t.ctime + c.timeout_embargo)
    then (record s { tuples = kept }, ift_greylist, greylist)
    else (record s { tuples = turned }, ift_accept, whitelist)

unfoldable pub check_tuple : Config → Request → Bool → Tuple → Server → Run (Server × ℕ × Reason)
unfolding new_tuple old_tuple
check_tuple c req white t s = Pool.tuple_search s.tuples t >>= λ (p, stored, idx). elim stored [
  | none ↦ new_tuple c req.clock white t idx (record s { tuples = p })
  | some slot ↦ done (old_tuple c req.now white slot (record s { tuples = p }))
]

-- The address check of `type_greylist`.
unfoldable pub check_ip : Server → Tuple → Run (Server × Verdict)
unfolding ip_match count_cmd
check_ip s t = ip_match s.ips.tree t.ip >>= λ (tree, v). count_cmd s.ip_cmdcnt v >>= λ counts.
    done (
      record s { ips = record s.ips { tree = tree }; ip_cmdcnt = counts },
      if v == ift_greylist then none else some (v, ip),
    )

-- The next check, where the one before left the request open.
abbrev pub or_else :
    Server × Verdict → (Server → Run (Server × ℕ × Reason)) → Run (Server × ℕ × Reason)
or_else (s, some (v, why)) next = done (s, v, why)
or_else (s, none) next = next s

unfoldable pub judge : Config → Request → Bool → Tuple → Server → Run (Server × ℕ × Reason)
unfolding check_ip check_from check_to check_tuple
judge c req white t s = check_ip s t >>= λ a. or_else a λ s₁. check_from s₁ t >>= λ b.
    or_else b λ s₂. check_to s₂ t >>= λ d. or_else d (check_tuple c req white t)

-- `white` says that the request's type is CMD_WHITELIST; `response` is the type of the reply.
unfoldable pub type_greylist : Config → Request → Bool → Command → Server → Run (Server × Reply)
unfolding greylist_sanitize_req judge refusal
type_greylist c req white response s = elim (greylist_sanitize_req req) [
  | none ↦ done (s, refusal)
  | some t ↦
      judge c req white t
        (record s { requests = s.requests + 1; req_cucurrent = s.req_cucurrent + 1 })
      >>= λ (s', v, why). done (s', record { type = response; response = v; why = why })
]

unfoldable pub type_tuple_remove : Request → Server → Run (Server × Reply)
unfolding greylist_sanitize_req refusal update
type_tuple_remove req s = elim (greylist_sanitize_req req) [
  | none ↦ done (s, refusal)
  | some t ↦ Pool.tuple_search s.tuples t >>= λ (p, stored, idx).
      let removed : Pool = elim stored [
        | none ↦ p
        | some slot ↦
            let u = p.pool slot in
            record p { pool = update p.pool slot (record u { f = record u.f { remove = true } }) }
      ] in
      done (
        record s { tuples = removed },
        record { type = cmd_tuple_remove_resp; response = 0; why = greylist },
      )
]

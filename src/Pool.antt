-- ===== src/Pool.antt =====
-- server/tuple.c: the tuples in memory. `g_pool` is a function from slots, so that a pointer to a
-- tuple is its slot; `g_tuplespace` is the array of those pointers, sorted up to `g_poolnum`.
pub mod Search
pub mod Gap
pub mod Cells
pub mod Add
pub mod Expire
pub mod Free
pub mod Kept
pub mod Room
pub mod White
pub mod Counting
pub mod Freed
pub mod Marks
pub mod Spare
pub mod Left
pub mod Purge
pub mod Counters
pub mod Full
pub mod Tidy
pub mod Dump
use x_grey.Prelude.{
  ℕ, zero, suc, ◌+◌, ◌-◌, ◌^◌, Option, none, some, Bool, true, false, List, [], ◌++◌, ◌∷◌, ◌==◌,
  ltb, leb, if◌then◌else◌, length, get_elem?, set, take, drop, Run, done, abort, assert, ◌>>=◌,
}
use x_grey.Bisearch.{Item, bisearch}
use x_grey.Tuple.{Tuple, Flags, tuple_look_ift}

-- The configuration of server/globals.c; every timeout is a whole number of seconds.
pub record Config : Type 0 where
  pub poolmax : ℕ
  pub timeout_embargo : ℕ
  pub timeout_grey : ℕ
  pub timeout_white : ℕ
  pub time_savestate : ℕ

pub record Pool : Type 0 where
  pub pool : ℕ → Tuple
  pub tuplespace : List ℕ
  pub poolnum : ℕ
  pub tuples_read : ℕ
  pub tuples_read_cucurrent : ℕ
  pub tuples_write : ℕ
  pub tuples_write_cucurrent : ℕ
  pub tuples_low : ℕ
  pub tuples_high : ℕ
  pub whitelisted : ℕ
  pub whitelist_expired : ℕ
  pub greylist_expired : ℕ

-- A write through a pointer into `g_pool`.
unfoldable pub update : (ℕ → Tuple) → ℕ → Tuple → ℕ → Tuple
update pool slot t i = if i == slot then t else pool i

-- `x--` on a `size_t`.
unfoldable pub dec : ℕ → ℕ
dec zero = 2 ^ 64 - 1
dec (suc n) = n

-- `g_tuples_read++`, and so for the current period.
abbrev pub counted : Pool → Pool
counted s = record s {
  tuples_read = s.tuples_read + 1;
  tuples_read_cucurrent = s.tuples_read_cucurrent + 1;
}

-- The tuple found, as its slot, and `*pidx`.
unfoldable pub search_item : Pool → Item → Run (Pool × Option ℕ × ℕ)
search_item s item = elim item.datum [
  | none ↦ done (counted s, none, item.idx)
  | some i ↦ elim (get_elem? s.tuplespace i) [
    | none ↦ abort
    | some slot ↦ done (counted s, some slot, item.idx)
  ]
]

unfoldable pub tuple_search : Pool → Tuple → Run (Pool × Option ℕ × ℕ)
unfolding bisearch search_item
tuple_search s key =
    bisearch (λ k slot. tuple_look_ift k (s.pool slot)) key s.tuplespace s.poolnum >>= search_item s

-- `memmove(&g_tuplespace[index + 1], &g_tuplespace[index], (g_poolnum - index) * sizeof(Tuple))`
-- and `g_tuplespace[index] = rec`.
unfoldable pub open_gap : List ℕ → ℕ → ℕ → ℕ → List ℕ
open_gap space poolnum index rec =
    take index space ++ (rec ∷ (drop index (take poolnum space) ++ drop (suc poolnum) space))

unfoldable pub tuple_add : Config → Pool → ℕ → ℕ → Run Pool
tuple_add c s rec index = assert (ltb s.poolnum c.poolmax) >>= λ _.
    assert (leb index s.poolnum) >>= λ _. assert (ltb rec c.poolmax) >>= λ _.
    assert ((s.pool rec).pad == 0xDECAFBAD) >>= λ _. done (record s {
      tuples_write = s.tuples_write + 1;
      tuples_write_cucurrent = s.tuples_write_cucurrent + 1;
      tuplespace = open_gap s.tuplespace s.poolnum index rec;
      poolnum = s.poolnum + 1;
      tuples_high = if ltb s.tuples_high (s.poolnum + 1) then s.poolnum + 1 else s.tuples_high;
    })

-- `difftime(Tao, atime)` against the timeout of the entry's kind.
unfoldable pub is_expired : Config → ℕ → Tuple → Bool
is_expired c now t =
    if t.f.whitelist
    then ltb (t.atime + c.timeout_white) now
    else ltb (t.atime + c.timeout_grey) now

-- The flag `F_REMOVE` set where the entry has expired.
unfoldable pub mark : Config → ℕ → Tuple → Tuple
mark c now t = if is_expired c now t then record t { f = record t.f { remove = true } } else t

-- The counters for an entry that goes.
unfoldable pub count_removed : Pool → Bool → Pool
unfolding dec
count_removed s true = record s {
  whitelisted = dec s.whitelisted;
  whitelist_expired = s.whitelist_expired + 1;
}
count_removed s false = record s { greylist_expired = s.greylist_expired + 1 }

-- The first loop of `tuple_expire`, from `i` with `n` rounds left; `j` is where the next entry that
-- stays is written. Returned are the state and the last `j`.
unfoldable pub expire_loop : Config → ℕ → ℕ → ℕ → ℕ → Pool → Run (Pool × ℕ)
unfolding mark count_removed update
expire_loop c now zero i j s = done (s, j)
expire_loop c now (suc n) i j s = elim (get_elem? s.tuplespace i) [
  | none ↦ abort
  | some slot ↦
      let t : Tuple = mark c now (s.pool slot) in
      let s' : Pool = record s { pool = update s.pool slot t } in
      let gone = expire_loop c now n (i + 1) j (count_removed s' t.f.whitelist) in
      let stays =
        expire_loop c now n (i + 1) (j + 1) (record s' { tuplespace = set s.tuplespace j slot }) in
      if t.f.remove then gone else stays
]

-- The second loop: every slot with `F_REMOVE` goes behind the entries that stay.
unfoldable pub free_loop : Config → ℕ → ℕ → ℕ → Pool → Run Pool
free_loop c zero i j s = done s
free_loop c (suc n) i j s =
    let freed = assert (ltb j (length s.tuplespace)) >>= λ _.
    assert (ltb (j + 1) c.poolmax) >>= λ _.
    free_loop c n (i + 1) (j + 1) (record s { tuplespace = set s.tuplespace j i }) in
    let other = free_loop c n (i + 1) j s in if (s.pool i).f.remove then freed else other

-- `g_tuples_low` and `g_tuples_high` take in the new `g_poolnum`.
unfoldable pub watermarks : Pool → Pool
watermarks s = record s {
  tuples_low = if ltb s.poolnum s.tuples_low then s.poolnum else s.tuples_low;
  tuples_high = if ltb s.tuples_high s.poolnum then s.poolnum else s.tuples_high;
}

unfoldable pub tuple_expire : Config → ℕ → Pool → Run Pool
unfolding expire_loop free_loop watermarks
tuple_expire c now s =
    let s' : Pool = record s {
      tuples_write = s.tuples_write + 1;
      tuples_write_cucurrent = s.tuples_write_cucurrent + 1;
    } in
    expire_loop c now s.poolnum 0 0 s' >>= λ (r, j).
    free_loop c c.poolmax 0 j (record r { poolnum = j }) >>= λ u. done (watermarks u)

unfoldable pub count_from : ℕ → ℕ → List ℕ
count_from i zero = []
count_from i (suc n) = i ∷ count_from (i + 1) n

-- `return g_tuplespace[g_poolnum]`
unfoldable pub next_slot : Pool → Run (Pool × ℕ)
next_slot s = elim (get_elem? s.tuplespace s.poolnum) [ none ↦ abort | some slot ↦ done (s, slot) ]

-- The slot to write the next tuple to. `now` is what `time(NULL)` returns.
unfoldable pub tuple_allocate : Config → ℕ → Pool → Run (Pool × ℕ)
unfolding tuple_expire count_from next_slot
tuple_allocate c now s = assert (leb s.poolnum c.poolmax) >>= λ _.
    if s.poolnum == c.poolmax
    then (tuple_expire c now s >>= λ r. next_slot (
        if r.poolnum == c.poolmax
        then record r { poolnum = 0; tuples_low = 0; tuplespace = count_from 0 c.poolmax }
        else r))
    else next_slot s

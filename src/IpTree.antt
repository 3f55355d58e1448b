-- ===== src/IpTree.antt =====
-- server/iplist.c: the binary tree of address rules, `ip_match` and `ip_add_sm`.
-- The `parent` pointer is written and never read, so a tree is a value.
pub mod Reader
pub mod Rules
pub mod Match
pub mod Add
pub mod Update
pub mod Table
pub mod Packing
pub mod Dump
pub mod Line
pub mod Restore
pub mod RoundTrip
use x_grey.Prelude.{
  ℕ, suc, ◌+◌, ◌-◌, ◌/◌, ◌%◌, Option, none, some, Bool, true, false, ◌&&◌, not, List, [], ◌∷◌, ◌++◌,
  ltb, ◌==◌, if◌then◌else◌, take, Run, done, abort, assert, ◌>>=◌,
}
use x_grey.Protocol.{ift_none, ift_remove}

-- `struct ipnode`; `null` is the NULL pointer. The fields are `count`, `match`, `zero`, `one`.
pub data Tree : Type 0 where
  null : Tree
  node : ℕ → ℕ → Tree → Tree → Tree

unfoldable pub is_null : Tree → Bool
is_null null = true
is_null (node n m z o) = false

-- `ip[off] & bit` for `bit` = 0x80, 0x40, ... 0x01.
unfoldable pub byte_bits : ℕ → List Bool
byte_bits b =
    (b / 128 % 2 == 1)
    ∷ (b / 64 % 2 == 1)
    ∷ (b / 32 % 2 == 1)
    ∷ (b / 16 % 2 == 1)
    ∷ (b / 8 % 2 == 1)
    ∷ (b / 4 % 2 == 1)
    ∷ (b / 2 % 2 == 1)
    ∷ (b % 2 == 1)
    ∷ []

-- The tests in the order in which `off` and `bit` go through the address.
unfoldable pub address_bits : List ℕ → List Bool
unfolding byte_bits
address_bits [] = []
address_bits (b ∷ bs) = byte_bits b ++ address_bits bs

-- The node that a path leads to.
unfoldable pub descend : Tree → List Bool → Tree
descend t [] = t
descend null (b ∷ bs) = null
descend (node n m z o) (false ∷ bs) = descend z bs
descend (node n m z o) (true ∷ bs) = descend o bs

unfoldable pub match_of : Tree → ℕ
match_of null = ift_none
match_of (node n m z o) = m

-- The loop of `ip_match`: the depth of the node that `match` points to when the loop returns;
-- `none` if the loop ends with `p == NULL`. A read behind the address is a fault.
unfoldable pub match_loop : Tree → ℕ → ℕ → List Bool → Run (Option ℕ)
unfolding is_null
match_loop null depth best bits = done none
match_loop (node n m z o) depth best [] = abort
match_loop (node n m z o) depth best (b ∷ bits) =
    let best' : ℕ = if m == ift_none then best else depth in
    let left = match_loop z (suc depth) best' bits in
    let right = match_loop o (suc depth) best' bits in
    if not b && not (is_null z)
    then left
    else if b && not (is_null o)
    then right
    else done (some best')

-- `match->count++`
unfoldable pub count_match : Tree → List Bool → Tree
count_match null path = null
count_match (node n m z o) [] = node (n + 1) m z o
count_match (node n m z o) (false ∷ bs) = node n m (count_match z bs) o
count_match (node n m z o) (true ∷ bs) = node n m z (count_match o bs)

unfoldable pub ip_match : Tree → List ℕ → Run (Tree × ℕ)
unfolding match_loop count_match descend match_of address_bits
ip_match tree ip =
    let bits = address_bits ip in
    match_loop tree 0 0 bits >>= λ at. elim at [
      | none ↦ done (tree, match_of tree)
      | some depth ↦
          let found = match_of (descend tree (take depth bits)) in
          assert (not (found == ift_none)) >>= λ _. done (count_match tree (take depth bits), found)
    ]

-- The loop of `ip_add_sm`: nodes that are missing on the path are made.
unfoldable pub make_path : Tree → List Bool → Tree
make_path null [] = node 0 ift_none null null
make_path (node n m z o) [] = node n m z o
make_path null (false ∷ bs) = node 0 ift_none (make_path null bs) null
make_path null (true ∷ bs) = node 0 ift_none null (make_path null bs)
make_path (node n m z o) (false ∷ bs) = node n m (make_path z bs) o
make_path (node n m z o) (true ∷ bs) = node n m z (make_path o bs)

-- `p->match = cmd`
unfoldable pub set_match : Tree → List Bool → ℕ → Tree
set_match null path cmd = null
set_match (node n m z o) [] cmd = node n cmd z o
set_match (node n m z o) (false ∷ bs) cmd = node n m (set_match z bs cmd) o
set_match (node n m z o) (true ∷ bs) cmd = node n m z (set_match o bs cmd)

-- `g_tree` and `g_ipcnt`.
pub record IpList : Type 0 where
  pub tree : Tree
  pub ipcnt : ℕ

-- The end of `ip_add_sm`, at the node `p` that the loop stops at; `old` is `p->match`.
unfoldable pub write_match : IpList → Tree → List Bool → ℕ → ℕ → IpList
unfolding set_match
write_match l made path old cmd =
    if (old == ift_none) && (cmd == ift_remove)
    then record l { tree = made }
    else let cnt : ℕ = if old == ift_none then l.ipcnt + 1 else l.ipcnt in
      if cmd == ift_remove
      then record { tree = set_match made path ift_none; ipcnt = cnt - 1 }
      else record { tree = set_match made path cmd; ipcnt = cnt }

unfoldable pub ip_add_sm : IpList → List ℕ → ℕ → ℕ → Run IpList
unfolding make_path set_match descend match_of address_bits write_match
ip_add_sm l ip mask cmd = assert (ltb mask 33) >>= λ _.
    if mask == 0
    then done (if cmd == ift_remove then l else record l { tree = set_match l.tree [] cmd })
    else let path = take mask (address_bits ip) in
      let made = make_path l.tree path in
      done (write_match l made path (match_of (descend made path)) cmd)

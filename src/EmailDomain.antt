-- ===== src/EmailDomain.antt =====
-- server/emaildomain.c: the sorted lists of addresses and domains, and what server/gld.c does to one
-- list (`cmd_mcp_tofrom`, and the look-ups of `type_greylist`).
-- A list is its `g_s...` entries; `realloc` never fails, and the room is `g_smax...`.
pub mod Dump
pub mod Update
pub mod Lookup
pub mod Reader
pub mod Comment
pub mod Reading
pub mod Line
pub mod Restore
pub mod RoundTrip
use x_grey.Prelude.{
  ℕ, ◌+◌, Ordering, Option, none, some, Bool, true, false, List, [], ◌==◌, leb, if◌then◌else◌,
  length, get_elem?, set, Run, done, abort, assert, ◌>>=◌,
}
use x_grey.Order.{strcmp}
use x_grey.Bisearch.{Item, bisearch}
use x_grey.Sorted.{insert_at, remove_at}
use x_grey.Protocol.{ift_remove}

-- `struct emaildomain`; `text` is the string up to its NUL.
pub record Entry : Type 0 where
  pub text : List ℕ
  pub tsize : ℕ
  pub count : ℕ
  pub cmd : ℕ

-- `g_..._cmdcnt[3]`, by `IFT_GREYLIST`, `IFT_ACCEPT` and `IFT_REJECT`.
pub record Counts : Type 0 where
  pub greylist : ℕ
  pub accept : ℕ
  pub reject : ℕ

-- `cmdcnt[cmd]++`; any other index is outside the array.
unfoldable pub count_cmd : Counts → ℕ → Run Counts
count_cmd c cmd =
    if cmd == 0
    then done (record c { greylist = c.greylist + 1 })
    else if cmd == 1
    then done (record c { accept = c.accept + 1 })
    else if cmd == 2
    then done (record c { reject = c.reject + 1 })
    else abort

-- The globals of one list: `g_to`, `g_smaxto`, `g_defto`, `g_toc`, `g_to_cmdcnt`, and so for the
-- other three.
pub record EList : Type 0 where
  pub items : List Entry
  pub max : ℕ
  pub def_cmd : ℕ
  pub def_count : ℕ
  pub cmdcnt : Counts

-- `edomain_look`
unfoldable pub edomain_look : List ℕ → Entry → Ordering
unfolding strcmp
edomain_look key v = strcmp key v.text

unfoldable pub edomain_search : List ℕ → EList → Run Item
unfolding bisearch edomain_look
edomain_search key l = bisearch edomain_look key l.items (length l.items)

abbrev ed_delta : ℕ
ed_delta = 100

unfoldable pub edomain_add : EList → Entry → ℕ → Run EList
edomain_add l rec index = assert (leb index (length l.items)) >>= λ _. done (record l {
  items = insert_at index rec l.items;
  max = if length l.items == l.max then l.max + ed_delta else l.max;
})

-- At `index == size` the count of entries to move wraps round.
unfoldable pub edomain_remove : EList → ℕ → Run EList
edomain_remove l index = assert (leb index (length l.items)) >>= λ _.
    if length l.items == 0
    then done l
    else if length l.items == index
    then abort
    else done (record l { items = remove_at index l.items })

-- What `cmd_mcp_tofrom` does with the item that the search returned.
unfoldable pub update_found : EList → Entry → Item → Run EList
unfolding edomain_add edomain_remove
update_found l key item = elim item.datum [
  | none ↦ if key.cmd == ift_remove then done l else edomain_add l key item.idx
  | some i ↦
      if key.cmd == ift_remove then edomain_remove l item.idx else elim (get_elem? l.items i) [
        | none ↦ abort
        | some value ↦
            done (record l { items = set l.items i (record value { cmd = key.cmd; count = 0 }) })
      ]
]

-- One case of the switch in `cmd_mcp_tofrom`: `def` says that the text names the default.
unfoldable pub update_list : EList → Bool → Entry → Run EList
unfolding edomain_search update_found
update_list l true key =
    done
      (if key.cmd == ift_remove then l else record l { def_cmd = key.cmd; def_count = key.count })
update_list l false key = edomain_search key.text l >>= update_found l key

-- What `type_greylist` does with the item of a look-up: the entry found, or the default, is counted.
-- Returned are the list, whether an entry was found, and the verdict.
unfoldable pub consult_found : EList → Item → Run (EList × Bool × ℕ)
consult_found l item = elim item.datum [
  | some i ↦ elim (get_elem? l.items i) [
    | none ↦ abort
    | some value ↦ count_cmd l.cmdcnt value.cmd >>= λ counts. done (
      record l {
        items = set l.items i (record value { count = value.count + 1 });
        cmdcnt = counts;
      },
      true,
      value.cmd,
    )
  ]
  | none ↦ count_cmd l.cmdcnt l.def_cmd >>= λ counts.
      done (record l { def_count = l.def_count + 1; cmdcnt = counts }, false, l.def_cmd)
]

unfoldable pub consult : EList → List ℕ → Run (EList × Bool × ℕ)
unfolding edomain_search consult_found
consult l key = edomain_search key l >>= consult_found l

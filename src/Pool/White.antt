-- ===== src/Pool/White.antt =====
-- server/tuple.c: the file of the triples that have passed, as `whitelist_dump_stream` writes it and
-- `whitelist_load` reads it.
pub mod Lines
pub mod Told
pub mod Load
pub mod Written
pub mod RoundTrip
use x_grey.Prelude.{
  ℕ, zero, suc, ◌+◌, ◌-◌, ◌%◌, Option, none, some, Bool, true, false, ◌&&◌, not, List, [], ◌∷◌,
  ◌++◌, ◌==◌, if◌then◌else◌, length, min, take, drop, replicate, get_elem?, Run, done, abort, ◌>>=◌,
}
use x_grey.Text.{cstring}
use x_grey.Text.Number.{strtoul}
use x_grey.Text.Address.{ipv4}
use x_grey.Tuple.{Tuple, no_flags}
use x_grey.Pool.{Config, Pool, update, tuple_search, tuple_allocate, tuple_add}
use x_grey.Postfix.{memchr, same_text}

-- A text of a tuple as it is printed.
unfoldable pub text_or_dash : ℕ → List ℕ → Run (List ℕ)
unfolding cstring
text_or_dash size text =
    if size == 0 then done (b'-' ∷ []) else elim (cstring text) [ none ↦ abort | some s ↦ done s ]

-- `ipv4` of the first four octets of an address, before `rest`.
unfoldable pub address_text : List ℕ → List ℕ → Run (List ℕ)
address_text (a ∷ b ∷ c ∷ d ∷ more) rest = done (ipv4 a b c d rest)
address_text _ rest = abort

-- The line of a tuple, before its end of line.
unfoldable pub white_line : Tuple → Run (List ℕ)
unfolding address_text
white_line t = text_or_dash t.fromsize t.from >>= λ from.
    text_or_dash t.tosize t.to >>= λ to. address_text t.ip (b' ' ∷ (from ++ (b' ' ∷ to)))

-- The lines of `n` entries from `i` on.
unfoldable pub white_lines : Pool → ℕ → ℕ → Run (List (List ℕ))
unfolding white_line
white_lines s i zero = done []
white_lines s i (suc n) =
    let rest = white_lines s (i + 1) n in
    elim (get_elem? s.tuplespace i) [
      | none ↦ abort
      | some slot ↦
          if (s.pool slot).f.whitelist && not (s.pool slot).f.remove
          then (white_line (s.pool slot) >>= λ line.
              rest >>= λ lines. done ((line ++ (10 ∷ [])) ∷ lines))
          else rest
    ]

unfoldable pub whitelist_dump_stream : Pool → Run (List (List ℕ))
unfolding white_lines
whitelist_dump_stream s = white_lines s 0 s.poolnum

-- `n` octets, and a byte passed over behind each; the text behind them. A step over the NUL is a
-- fault, since the text there is read.
unfoldable pub read_octets : ℕ → List ℕ → Run (List ℕ × List ℕ)
read_octets zero p = done ([], p)
read_octets (suc n) p = elim (strtoul p).1 [
  | [] ↦ abort
  | b ∷ bs ↦ read_octets n bs >>= λ (more, rest). done (((strtoul p).0 % 256) ∷ more, rest)
]

-- `strncpy` into an array of zeros, and `strlen` of it.
unfoldable pub copied : List ℕ → ℕ × List ℕ
copied text =
    if same_text text (b'-' ∷ [])
    then (0, replicate 108 0)
    else (min 107 (length text), take 107 text ++ replicate (108 - min 107 (length text)) 0)

-- The tuple of an address and the text behind it, at the time `now`; `none` skips the line.
unfoldable pub white_tuple : ℕ → List ℕ → List ℕ → Option Tuple
unfolding copied memchr
white_tuple now ip p = elim (memchr b' ' p) [
  | none ↦ none
  | some i ↦
      let from = copied (take i p) in
      let to = copied (drop (suc i) p) in
      some (record {
        ctime = now;
        atime = now;
        fromsize = from.0;
        tosize = to.0;
        pad = 0xDECAFBAD;
        f = no_flags;
        ip = ip ++ replicate 12 0;
        from = from.1;
        to = to.1;
      })
]

-- The tuple of a line without spaces around it.
unfoldable pub white_entry : ℕ → List ℕ → Run (Option Tuple)
unfolding read_octets white_tuple
white_entry now line = read_octets 4 line >>= λ (ip, p). done (white_tuple now ip p)

abbrev pub passed : Tuple → Tuple
passed t = record t { f = record t.f { whitelist = true } }

-- What is done with the tuple of a line once it was searched for. `clock` is what `time` returns in
-- `tuple_allocate`.
unfoldable pub store_tuple : Config → (now clock : ℕ) → Tuple → Pool → Option ℕ → ℕ → Run Pool
unfolding tuple_allocate tuple_add update
store_tuple c now clock t p none idx = tuple_allocate c clock p >>= λ (q, slot).
    tuple_add c (record q { pool = update q.pool slot (passed t) }) slot idx >>= λ r.
    done (record r { whitelisted = r.whitelisted + 1 })
store_tuple c now clock t p (some slot) idx =
    let old = p.pool slot in
    let new : Tuple = record old { atime = now } in
    done (
      if old.f.whitelist
      then record p { pool = update p.pool slot new }
      else record p { pool = update p.pool slot (passed new); whitelisted = p.whitelisted + 1 })

-- The end of a round of `whitelist_load`.
unfoldable pub load_tuple : Config → (now clock : ℕ) → Tuple → Pool → Run Pool
unfolding tuple_search store_tuple
load_tuple c now clock t s =
    tuple_search s t >>= λ (p, stored, idx). store_tuple c now clock t p stored idx

-- The loop on the lines, after which both marks are the number of tuples. The functions are those of
-- cgilib6.
unfoldable pub load_lines :
    (List ℕ → Bool) → (List ℕ → List ℕ) → Config → (now clock : ℕ) → List (List ℕ) → Pool → Run Pool
unfolding white_entry load_tuple
load_lines empty_string trim_space c now clock [] s = done s
load_lines empty_string trim_space c now clock (line ∷ lines) s =
    if empty_string line
    then load_lines empty_string trim_space c now clock lines s
    else (white_entry now (trim_space line) >>= λ entry. elim entry [
      | none ↦ load_lines empty_string trim_space c now clock lines s
      | some t ↦ load_tuple c now clock t s >>= λ s'.
          load_lines empty_string trim_space c now clock lines s'
    ])

-- `none` is a file that does not exist.
unfoldable pub whitelist_load :
    (List ℕ → Bool)
    → (List ℕ → List ℕ)
    → Config
    → (now clock : ℕ) → Option (List (List ℕ))
    → Pool
    → Run Pool
unfolding load_lines
whitelist_load empty_string trim_space c now clock none s = done s
whitelist_load empty_string trim_space c now clock (some lines) s =
    load_lines empty_string trim_space c now clock lines s >>= λ r.
    done (record r { tuples_low = r.poolnum; tuples_high = r.poolnum })

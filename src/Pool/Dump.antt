-- ===== src/Pool/Dump.antt =====
-- server/tuple.c: the reports of the tuples, `tuple_dump_stream` and `tuple_all_dump_stream`.
use x_grey.Prelude.{
  ℕ, zero, suc, ◌+◌, none, some, Bool, true, ◌||◌, not, List, [], ◌∷◌, ◌++◌, if◌then◌else◌,
  get_elem?, Run, done, abort, ◌>>=◌,
}
use x_grey.Text.Number.{decimal}
use x_grey.Tuple.{Tuple, Flags}
use x_grey.Pool.{Pool}
use x_grey.Pool.White.{text_or_dash, address_text}

abbrev letter : Bool → ℕ → ℕ
letter set c = if set then c else b'-'

-- The five letters of the flags, before what follows them.
unfoldable pub flag_text : Flags → List ℕ → List ℕ
flag_text f rest =
    letter f.whitelist b'W'
    ∷ letter f.remove b'D'
    ∷ letter f.trunc_from b'F'
    ∷ letter f.trunc_to b'T'
    ∷ letter f.ipv6 b'6'
    ∷ rest

-- The line of a tuple, without its end of line.
unfoldable pub dump_line : Tuple → Run (List ℕ)
unfolding text_or_dash address_text flag_text decimal
dump_line t = text_or_dash t.fromsize t.from >>= λ from. text_or_dash t.tosize t.to >>= λ to.
    address_text t.ip (
      b' '
      ∷ (from
          ++ (b' '
              ∷ (to
                  ++ (b' ' ∷ flag_text t.f (b' ' ∷ decimal t.ctime (b' ' ∷ decimal t.atime [])))))))

-- `(!f & F_WHITELIST)`: `!f` is 1 if no flag is set, and F_WHITELIST is 1.
unfoldable pub without_flags : Flags → Bool
without_flags f = not (f.whitelist || (f.remove || (f.trunc_from || (f.trunc_to || f.ipv6))))

-- The lines of `n` entries from `i` on that a test takes.
unfoldable pub dump_lines : (Tuple → Bool) → Pool → ℕ → ℕ → Run (List (List ℕ))
unfolding dump_line
dump_lines takes s i zero = done []
dump_lines takes s i (suc n) =
    let rest = dump_lines takes s (i + 1) n in
    elim (get_elem? s.tuplespace i) [
      | none ↦ abort
      | some slot ↦
          if takes (s.pool slot)
          then (dump_line (s.pool slot) >>= λ line. rest >>= λ lines. done (line ∷ lines))
          else rest
    ]

unfoldable pub tuple_dump_stream : Pool → Run (List (List ℕ))
unfolding dump_lines without_flags
tuple_dump_stream s = dump_lines (λ t. without_flags t.f) s 0 s.poolnum

unfoldable pub tuple_all_dump_stream : Pool → Run (List (List ℕ))
unfolding dump_lines
tuple_all_dump_stream s = dump_lines (λ t. true) s 0 s.poolnum

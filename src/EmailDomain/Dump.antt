-- ===== src/EmailDomain/Dump.antt =====
-- server/emaildomain.c: the file of a list, as `tofrom_dump_stream` and the functions that call it
-- write it.
use x_grey.Prelude.{ℕ, ◌-◌, List, [], ◌∷◌, ◌++◌, length, take, replicate}
use x_grey.Names.{ci_map_chars, c_ift}
use x_grey.Text.Number.{decimal}
use x_grey.EmailDomain.{Entry, EList}
use x_grey.Server.{Server}

-- A text at the right of a field of some width.
unfoldable pub at_right : ℕ → List ℕ → List ℕ
at_right width text = replicate (width - length text) b' ' ++ text

-- `"%10lu %8.8s %s\n"`; the verdict is named by `ci_map_chars`.
unfoldable pub entry_line : (count cmd : ℕ) → List ℕ → List ℕ
unfolding at_right decimal ci_map_chars
entry_line count cmd text =
    at_right 10 (decimal count [])
    ++ (b' ' ∷ (at_right 8 (take 8 (ci_map_chars cmd c_ift)) ++ (b' ' ∷ (text ++ (10 ∷ [])))))

unfoldable pub tofrom_dump_stream : List Entry → List (List ℕ)
unfolding entry_line
tofrom_dump_stream [] = []
tofrom_dump_stream (e ∷ es) = entry_line e.count e.cmd e.text ∷ tofrom_dump_stream es

abbrev pub default_text : List ℕ
default_text = b'D' ∷ b'E' ∷ b'F' ∷ b'A' ∷ b'U' ∷ b'L' ∷ b'T' ∷ []

-- A list, and its default at the end.
unfoldable pub list_dump_stream : EList → List (List ℕ)
unfolding tofrom_dump_stream entry_line
list_dump_stream l =
    tofrom_dump_stream l.items ++ (entry_line l.def_count l.def_cmd default_text ∷ [])

abbrev pub to_dump_stream : Server → List (List ℕ)
to_dump_stream s = list_dump_stream s.to_list

abbrev pub tod_dump_stream : Server → List (List ℕ)
tod_dump_stream s = list_dump_stream s.tod_list

abbrev pub from_dump_stream : Server → List (List ℕ)
from_dump_stream s = list_dump_stream s.from_list

abbrev pub fromd_dump_stream : Server → List (List ℕ)
fromd_dump_stream s = list_dump_stream s.fromd_list

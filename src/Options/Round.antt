-- ===== src/Options/Round.antt =====
-- The defaults that postfix/globals.c prints, read again as options.
use x_grey.Prelude.{
  ℕ, zero, suc, ◌*◌, ◌/◌, ◌≡◌, ◌≤◌, ◌<◌, refl, some, Bool, true, ◌&&◌, ◌==◌, List, [], ◌∷◌, All,
  get_elem?, arith,
}
use x_grey.Order.{strcmp}
use x_grey.Names.{CharsInt, ci_map_int, ci_map_chars, is_eq}
use x_grey.Text.Times.{Strtod, read_dtime, report_delta}
use x_grey.Text.Times.Round.{read_dtime-report_delta_whole}
use x_grey.Options.{opt_log_facility, opt_log_level, opt_log_id, Given, given, OptLib, parse_loop}
use x_grey.Options.Names.{c_facilities, c_levels}
use x_grey.Options.Postfix.{Settings, choose, parse_cmdline, mc_options, opt_timeout, dump_defaults}

-- The options whose defaults are printed, given again with what is printed for them.
pub as_given : List (List ℕ) → List Given
as_given (time ∷ facility ∷ level ∷ id ∷ more) =
    given 4 opt_timeout time
    ∷ given 5 opt_log_facility facility
    ∷ given 6 opt_log_level level
    ∷ given 7 opt_log_id id
    ∷ []
as_given _ = []

-- `up_string` leaves the names in the tables.
abbrev pub IsUpper : OptLib → List CharsInt → Type 0
IsUpper lib table = All (λ e. lib.up_string e.name ≡ e.name) table

-- The name that is printed for the value of an entry is read as that value.
abbrev is_back : List CharsInt → CharsInt → Bool
is_back table e = ci_map_int (ci_map_chars e.value table) table == e.value

abbrev all_back : List CharsInt → List CharsInt → Bool
all_back table [] = true
all_back table (e ∷ es) = is_back table e && all_back table es

all_back-get :
    (table es : List CharsInt) (i : ℕ) (e : CharsInt)
    → all_back table es ≡ true
    → get_elem? es i ≡ some e
    → ci_map_int (ci_map_chars e.value table) table ≡ e.value
all_back-get table [] i e h at = ground arith
all_back-get table (d ∷ es) zero e h at = let same : d ≡ e = cc in rw (← same) (ground arith)
all_back-get table (d ∷ es) (suc i) e h at = all_back-get table es i e (ground arith) at

facilities_back : all_back c_facilities c_facilities ≡ true
unfolding ci_map_int ci_map_chars strcmp is_eq
facilities_back = refl

levels_back : all_back c_levels c_levels ≡ true
unfolding ci_map_int ci_map_chars strcmp is_eq
levels_back = refl

-- A value of a table, by its place.
abbrev pub IsValue : List CharsInt → ℕ → Type 0
IsValue table v = (i : ℕ) × (e : CharsInt) × (get_elem? table i ≡ some e) × (e.value ≡ v)

module _ (lib : OptLib) where
  -- The name that is printed for a value of a table is one of its names.
  printed-IsUpper :
      (table : List CharsInt) (i : ℕ) (e : CharsInt)
      → IsUpper lib table
      → get_elem? table i ≡ some e
      → lib.up_string (ci_map_chars e.value table) ≡ ci_map_chars e.value table
  unfolding ci_map_chars
  printed-IsUpper [] i e u at = ground arith
  printed-IsUpper (d ∷ es) zero e u at = let same : d ≡ e = cc in rw (← same) (ground (arith, u.0))
  printed-IsUpper (d ∷ es) (suc i) e u at = ground (arith, u.0, printed-IsUpper es i e u.1 at)

  value_back :
      (table : List CharsInt) (v : ℕ)
      → IsUpper lib table
      → all_back table table ≡ true
      → IsValue table v
      → ci_map_int (lib.up_string (ci_map_chars v table)) table ≡ v
  value_back table v u h (i, e, at, same) =
      rw (← same, printed-IsUpper table i e u at) (all_back-get table table i e h at)

  whole : {m : ℕ} (n : ℕ) → m ≡ 10000 * n → m / 10000 ≡ n
  whole n h = omega arith

  -- With names that `up_string` leaves, a facility and a level of the tables, and a timeout of at least
  -- a second and less than a year, the texts that `dump_defaults` prints for the timeout, the facility,
  -- the level and the identity, given as these options, set the four as they were, and nothing else.
  pub parse_cmdline-dump_defaults :
      (clock : Strtod) (stack : List ℕ) (argv : List (List ℕ)) (s t : Settings)
      → IsUpper lib c_facilities
      → IsUpper lib c_levels
      → IsValue c_facilities s.log_facility
      → IsValue c_levels s.log_level
      → 1 ≤ s.timeout
      → s.timeout < 31556925
      → lib.getopt mc_options argv ≡ as_given (dump_defaults stack s)
      → parse_cmdline lib clock argv t
        ≡ some (record t {
          timeout = s.timeout;
          log_facility = s.log_facility;
          log_level = s.log_level;
          log_id = s.log_id;
        })
  unfolding parse_cmdline dump_defaults as_given parse_loop choose
  parse_cmdline-dump_defaults clock stack argv s t uf ul hf hl low high e =
      let read = read_dtime-report_delta_whole clock stack s.timeout (10000 * t.timeout) low high in
      let exact : read_dtime clock (report_delta stack (10000 * s.timeout)) (10000 * t.timeout)
            / 10000
          ≡ s.timeout =
        whole s.timeout read in
      rw e (
        rw
          (
            exact,
            value_back c_facilities s.log_facility uf facilities_back hf,
            value_back c_levels s.log_level ul levels_back hl,
          )
          refl)

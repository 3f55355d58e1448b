-- ===== src/Server/Files.antt =====
-- server/signals.c, `save_state`, with `whitelist_dump`, `iplist_dump`, `file_dump` and its four
-- callers; and the reading of the files in `GlobalsInit` of server/globals.c, with `tofrom_read`.
use x_grey.Prelude.{ℕ, Option, none, some, Bool, false, List, if◌then◌else◌, Run, done, ◌>>=◌}
use x_grey.Text.Number.{strtoul}
use x_grey.IpTree.{IpList}
use x_grey.IpTree.Dump.{iplist_dump_stream}
use x_grey.IpTree.Reader.{Trimming, iplist_read}
use x_grey.EmailDomain.{EList}
use x_grey.EmailDomain.Dump.{
  to_dump_stream, tod_dump_stream, from_dump_stream, fromd_dump_stream, list_dump_stream,
}
use x_grey.EmailDomain.Reader.{Strings, tofrom_read_stream}
use x_grey.Pool.{Config}
use x_grey.Pool.White.{whitelist_dump_stream, whitelist_load}
use x_grey.Server.{Server}

-- `c_whitefile`, `c_iplistfile`, `c_tofile`, `c_todfile`, `c_fromfile`, `c_fromdfile`
pub data FileName : Type 0 where
  white_file iplist_file to_file tod_file from_file fromd_file : FileName

-- The lines of a file, and whether the last of them has no end of line.
pub record TextFile : Type 0 where
  pub lines : List (List ℕ)
  pub open_end : Bool

-- `none` is a file that cannot be opened for reading.
pub record StateFiles : Type 0 where
  pub white : Option TextFile
  pub iplist : Option TextFile
  pub to_list : Option TextFile
  pub tod_list : Option TextFile
  pub from_list : Option TextFile
  pub fromd_list : Option TextFile

abbrev pub written : List (List ℕ) → Option TextFile
written lines = some (record { lines = lines; open_end = false })

-- `opens` says which files can be opened for writing; the others stay as they are.
module _ (opens : FileName → Bool) where
  unfoldable pub whitelist_dump : Server → StateFiles → Run StateFiles
  unfolding whitelist_dump_stream
  whitelist_dump s fs =
      if opens white_file
      then (whitelist_dump_stream s.tuples >>= λ lines. done (record fs { white = written lines }))
      else done fs

  unfoldable pub iplist_dump : Server → StateFiles → StateFiles
  unfolding iplist_dump_stream
  iplist_dump s fs =
      if opens iplist_file
      then record fs { iplist = written (iplist_dump_stream s.ips.tree) }
      else fs

  -- `file_dump`: the file after it.
  unfoldable pub file_dump : FileName → List (List ℕ) → Option TextFile → Option TextFile
  file_dump name lines old = if opens name then written lines else old

  unfoldable pub to_dump : Server → StateFiles → StateFiles
  unfolding file_dump list_dump_stream
  to_dump s fs = record fs { to_list = file_dump to_file (to_dump_stream s) fs.to_list }

  unfoldable pub tod_dump : Server → StateFiles → StateFiles
  unfolding file_dump list_dump_stream
  tod_dump s fs = record fs { tod_list = file_dump tod_file (tod_dump_stream s) fs.tod_list }

  unfoldable pub from_dump : Server → StateFiles → StateFiles
  unfolding file_dump list_dump_stream
  from_dump s fs = record fs { from_list = file_dump from_file (from_dump_stream s) fs.from_list }

  unfoldable pub fromd_dump : Server → StateFiles → StateFiles
  unfolding file_dump list_dump_stream
  fromd_dump s fs = record fs {
    fromd_list = file_dump fromd_file (fromd_dump_stream s) fs.fromd_list;
  }

  unfoldable pub save_state : Server → StateFiles → Run StateFiles
  unfolding whitelist_dump iplist_dump to_dump tod_dump from_dump fromd_dump
  save_state s fs = whitelist_dump s fs >>= λ gs.
      done (fromd_dump s (from_dump s (tod_dump s (to_dump s (iplist_dump s gs)))))

-- The functions on strings that the reader of the lists calls.
abbrev pub strings : Trimming → Strings
strings lib = record {
  empty_string = lib.empty_string;
  trim_space = lib.trim_space;
  strtoul = λ t. (strtoul t).0;
}

module _ (lib : Trimming) where
  -- The file of the rules; what it returns is not looked at. `ip` is the array of the address.
  unfoldable pub read_rules : List ℕ → Option TextFile → IpList → Run IpList
  unfolding iplist_read
  read_rules ip none l = done l
  read_rules ip (some file) l = iplist_read lib ip file.lines l >>= λ (l', ended). done l'

  -- `tofrom_read`; `old` is `cf_oldcounts`.
  unfoldable pub tofrom_read : Bool → Option TextFile → EList → Run EList
  unfolding tofrom_read_stream strtoul
  tofrom_read old none l = done l
  tofrom_read old (some file) l = tofrom_read_stream (strings lib) old file.open_end file.lines l

  unfoldable pub load_white : Config → (now clock : ℕ) → Option TextFile → Server → Run Server
  unfolding whitelist_load
  load_white c now clock file s =
      whitelist_load lib.empty_string lib.trim_space c now clock
        (elim file [ none ↦ none | some f ↦ some f.lines ]) s.tuples
      >>= λ p. done (record s { tuples = p })

  -- The calls of `GlobalsInit`, in their order.
  unfoldable pub read_files :
      Config → Bool → List ℕ → (now clock : ℕ) → StateFiles → Server → Run Server
  unfolding read_rules load_white tofrom_read
  read_files c old ip now clock fs s = read_rules ip fs.iplist s.ips >>= λ ips.
      load_white c now clock fs.white (record s { ips = ips }) >>= λ s1.
      tofrom_read old fs.to_list s1.to_list >>= λ a.
      tofrom_read old fs.tod_list s1.tod_list >>= λ b.
      tofrom_read old fs.from_list s1.from_list >>= λ d.
      tofrom_read old fs.fromd_list s1.fromd_list >>= λ e.
      done (record s1 { to_list = a; tod_list = b; from_list = d; fromd_list = e })

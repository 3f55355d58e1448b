-- ===== src/Server/Restart.antt =====
-- server/signals.c and server/globals.c: the daemon that starts with the files that another saved.
use x_grey.Prelude.{
  ℕ, ◌≡◌, ◌≢◌, refl, sym, subst, Option, some, Bool, true, false, List, [], ◌∷◌, done, Returns,
  Returns-bind, Returns-parts, ◌>>=◌,
}
use x_grey.Protocol.{ift_none}
use x_grey.IpTree.{IpList}
use x_grey.IpTree.Rules.{rule, rule-null}
use x_grey.IpTree.Update.{IsListed}
use x_grey.IpTree.Dump.{iplist_dump_stream}
use x_grey.IpTree.Reader.{Trimming}
use x_grey.EmailDomain.Dump.{list_dump_stream}
use x_grey.Pool.{Config, Pool}
use x_grey.Pool.White.{whitelist_dump_stream, whitelist_load}
use x_grey.Pool.White.RoundTrip.{IsReloaded, whitelist_load-whitelist_dump_stream}
use x_grey.Server.{Server}
use x_grey.Server.Start.{start, start_pool, start-IsPool}
use x_grey.Server.Files.{
  TextFile, StateFiles, written, save_state, whitelist_dump, iplist_dump, file_dump, to_dump,
  tod_dump, from_dump, fromd_dump, read_rules, tofrom_read, load_white, read_files,
}
use x_grey.Server.Saved.{
  IsStringLibrary, IsSavable, IsRestarted, IsBare, list_again, rules_again, library-IsTrim,
}

module _ (lib : Trimming) (h : IsStringLibrary lib) where
  module _ (c : Config) (old : Bool) (now clock : ℕ) (s t : Server) (k : IsSavable c s)
      (g : IsBare c t) where
    -- The files of the daemon.
    record IsSaved (fs : StateFiles) : Type 0 where
      white_lines : List (List ℕ)
      white : fs.white ≡ written white_lines
      loads :
          Returns
            (whitelist_load lib.empty_string lib.trim_space c now clock (some white_lines) t.tuples)
            (IsReloaded c now s.tuples)
      iplist : fs.iplist ≡ written (iplist_dump_stream s.ips.tree)
      to_list : fs.to_list ≡ written (list_dump_stream s.to_list)
      tod_list : fs.tod_list ≡ written (list_dump_stream s.tod_list)
      from_list : fs.from_list ≡ written (list_dump_stream s.from_list)
      fromd_list : fs.fromd_list ≡ written (list_dump_stream s.fromd_list)

    abbrev IsLoading : List (List ℕ) → Type 0
    IsLoading lines =
        Returns (whitelist_load lib.empty_string lib.trim_space c now clock (some lines) t.tuples)
          (IsReloaded c now s.tuples)

    dump-IsLoading : Returns (whitelist_dump_stream s.tuples) IsLoading
    dump-IsLoading = Returns-parts (whitelist_dump_stream s.tuples) _ (IsReloaded c now s.tuples) (
        whitelist_load-whitelist_dump_stream lib.empty_string lib.trim_space c now clock s.tuples
          t.tuples (library-IsTrim lib h) k.tuples k.told g.tuples g.no_tuples)

    save_state-IsSaved : (fs : StateFiles) → Returns (save_state (λ name. true) s fs) IsSaved
    unfolding save_state whitelist_dump iplist_dump file_dump to_dump tod_dump from_dump fromd_dump
    save_state-IsSaved fs =
        Returns-bind (whitelist_dump (λ name. true) s fs) _
          (λ gs. (lines : List (List ℕ)) × (gs.white ≡ written lines) × IsLoading lines) IsSaved
          (Returns-bind (whitelist_dump_stream s.tuples) _ _ _ dump-IsLoading
            (λ lines w. (lines, refl, w)))
          (λ gs w. record {
            white_lines = w.0;
            white = w.1;
            loads = w.2;
            iplist = refl;
            to_list = refl;
            tod_list = refl;
            from_list = refl;
            fromd_list = refl;
          })

    white_again :
        (file : Option TextFile) (lines : List (List ℕ)) (u : Server)
        → file ≡ written lines
        → u.tuples ≡ t.tuples
        → IsLoading lines
        → Returns
            (load_white lib c now clock file u)
            (λ r. (p : Pool) × (r ≡ record u { tuples = p }) × IsReloaded c now s.tuples p)
    unfolding load_white
    white_again file lines u e same w =
        subst
          (λ (f : Option TextFile).
            Returns (load_white lib c now clock f u)
              (λ r. (p : Pool) × (r ≡ record u { tuples = p }) × IsReloaded c now s.tuples p))
          (sym e)
          (Returns-bind
            (whitelist_load lib.empty_string lib.trim_space c now clock (some lines) u.tuples) _ _ _
            (subst
              (λ (p : Pool).
                Returns (whitelist_load lib.empty_string lib.trim_space c now clock (some lines) p)
                  (IsReloaded c now s.tuples))
              (sym same) w)
            (λ p m. (p, refl, m)))

    lists_again :
        (fs : StateFiles) (l : IpList)
        → IsListed l × ((p : List Bool) → rule l.tree p ≡ rule s.ips.tree p)
        → (u : Server) (p : Pool) → IsSaved fs
        → u ≡ record t { tuples = p; ips = l }
        → IsReloaded c now s.tuples p
        → Returns
            (tofrom_read lib old fs.to_list u.to_list >>= λ a.
              tofrom_read lib old fs.tod_list u.tod_list >>= λ b.
              tofrom_read lib old fs.from_list u.from_list >>= λ d.
              tofrom_read lib old fs.fromd_list u.fromd_list >>= λ e.
              done (record u { to_list = a; tod_list = b; from_list = d; fromd_list = e }))
            (IsRestarted c old now s)
    lists_again fs l m u p f e n =
        let r : Server = record t { tuples = p; ips = l } in
        subst
          (λ (v : Server).
            Returns
              (tofrom_read lib old fs.to_list v.to_list >>= λ a.
                tofrom_read lib old fs.tod_list v.tod_list >>= λ b.
                tofrom_read lib old fs.from_list v.from_list >>= λ d.
                tofrom_read lib old fs.fromd_list v.fromd_list >>= λ e.
                done (record v { to_list = a; tod_list = b; from_list = d; fromd_list = e }))
              (IsRestarted c old now s))
          (sym e)
          (Returns-bind (tofrom_read lib old fs.to_list r.to_list) _ _ _
            (list_again lib h old s.to_list r.to_list fs.to_list k.to_list g.to_list.0 g.to_list.1
              f.to_list)
            (λ a ha.
              Returns-bind (tofrom_read lib old fs.tod_list r.tod_list) _ _ _
                (list_again lib h old s.tod_list r.tod_list fs.tod_list k.tod_list g.tod_list.0
                  g.tod_list.1 f.tod_list)
                (λ b hb.
                  Returns-bind (tofrom_read lib old fs.from_list r.from_list) _ _ _
                    (list_again lib h old s.from_list r.from_list fs.from_list k.from_list
                      g.from_list.0 g.from_list.1 f.from_list)
                    (λ d hd.
                      Returns-bind (tofrom_read lib old fs.fromd_list r.fromd_list) _ _ _
                        (list_again lib h old s.fromd_list r.fromd_list fs.fromd_list k.fromd_list
                          g.fromd_list.0 g.fromd_list.1 f.fromd_list)
                        (λ e he. record {
                          tuples = n;
                          listed = m.0;
                          rules = m.1;
                          to_list = ha;
                          tod_list = hb;
                          from_list = hd;
                          fromd_list = he;
                        })))))

    read_files-IsRestarted :
        (fs : StateFiles) (w x y z : ℕ) (more : List ℕ)
        → IsSaved fs
        → Returns
            (read_files lib c old (w ∷ x ∷ y ∷ z ∷ more) now clock fs t)
            (IsRestarted c old now s)
    unfolding read_files
    read_files-IsRestarted fs w x y z more f =
        Returns-bind (read_rules lib (w ∷ x ∷ y ∷ z ∷ more) fs.iplist t.ips) _
          (λ l. IsListed l × ((p : List Bool) → rule l.tree p ≡ rule s.ips.tree p)) _
          (subst
            (λ (i : Option TextFile).
              Returns (read_rules lib (w ∷ x ∷ y ∷ z ∷ more) i t.ips)
                (λ l. IsListed l × ((p : List Bool) → rule l.tree p ≡ rule s.ips.tree p)))
            (sym f.iplist)
            (rules_again lib h s.ips t.ips w x y z more k.rules k.verdicts g.listed g.alone))
          (λ l m.
            Returns-bind (load_white lib c now clock fs.white (record t { ips = l })) _ _ _
              (white_again fs.white f.white_lines (record t { ips = l }) f.white refl f.loads)
              (λ u n. lists_again fs l m u n.0 f n.1 n.2))

start_alone :
    (c : Config) (begun : ℕ) (p : List Bool) → p ≢ [] → rule (start c begun).ips.tree p ≡ ift_none
unfolding start rule
start_alone c begun [] e = elim (e refl) [ ]
start_alone c begun (false ∷ p) e = rule-null p
start_alone c begun (true ∷ p) e = rule-null p

start-IsBare : (c : Config) (begun : ℕ) → IsBare c (start c begun)
unfolding start start_pool
start-IsBare c begun =
    let (pool, lists) = start-IsPool c begun in
    record {
      tuples = pool;
      no_tuples = refl;
      listed = lists.ips.listed;
      alone = start_alone c begun;
      to_list = (lists.to_list.sorted, refl);
      tod_list = (lists.tod_list.sorted, refl);
      from_list = (lists.from_list.sorted, refl);
      fromd_list = (lists.fromd_list.sorted, refl);
    }

-- A daemon saves its state, every file can be opened for writing, and the next one starts and reads
-- the files. Then both are carried out to their ends, and the next daemon has: the tuples that had
-- passed and stay, in their order, with the time of the reading; for every address the same answer of
-- the rules; and in each of the four lists the same entries in the same order and the same default,
-- with the counts where `cf_oldcounts` is set. Its pool, its rules and its lists are in order. The
-- state is one that its files can tell, the address that is handed on has four octets at least, and
-- the functions of cgilib6 do what `IsStringLibrary` says.
pub save_state-read_files :
    (lib : Trimming) (c : Config) (old : Bool) (now clock begun : ℕ) (s : Server) (fs : StateFiles)
    (w x y z : ℕ) (more : List ℕ)
    → IsStringLibrary lib
    → IsSavable c s
    → Returns
        (save_state (λ name. true) s fs >>= λ gs.
          read_files lib c old (w ∷ x ∷ y ∷ z ∷ more) now clock gs (start c begun))
        (IsRestarted c old now s)
save_state-read_files lib c old now clock begun s fs w x y z more h k =
    let g = start-IsBare c begun in
    Returns-bind (save_state (λ name. true) s fs) _ _ _
      (save_state-IsSaved lib h c old now clock s (start c begun) k g fs)
      (λ gs f. read_files-IsRestarted lib h c old now clock s (start c begun) k g gs w x y z more f)

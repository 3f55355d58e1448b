-- ===== src/Pool/Purge.antt =====
-- `tuple_expire` of server/tuple.c as a whole: the two loops, one after the other, on a pool in
-- order.
use x_grey.Prelude.{
  ℕ, ◌+◌, ◌≤◌, ◌<◌, ◌≡◌, refl, sym, ap, subst, ◌∙◌, ◌≢◌, true, false, List, [], ◌∷◌, ◌++◌, arith,
  All, All-drop, All-take, All-impl, All-and, length, length-append, length-drop, take, drop, done,
  abort, Returns, Returns-bind, bind-abort,
}
use x_grey.Sorted.{IsAscending}
use x_grey.Tuple.{Tuple}
use x_grey.Tuple.Key.{tuple_key, key_cmp}
use x_grey.Pool.{Config, Pool, expire_loop, free_loop, watermarks, tuple_expire}
use x_grey.Pool.Search.{IsPool, Distinct, live, slot_key}
use x_grey.Pool.Gap.{All-append, IsAscending-congr, take_append, drop_append}
use x_grey.Pool.Cells.{drop-drop}
use x_grey.Pool.Expire.{keep, keep-All, keep-IsAscending, keep-length}
use x_grey.Pool.Free.{flagged, free_loop_full}
use x_grey.Pool.Counting.{count_flagged, count_flagged-append}
use x_grey.Pool.Freed.{
  flagged_slots, length-flagged_slots, flagged_slots-All, flagged_slots-Distinct,
  free_loop-flagged_slots, Distinct-append, flags_apart,
}
use x_grey.Pool.Left.{written, length-live, parts, IsLeft, first_loop, kept_number, total}
use x_grey.Pool.Spare.{
  spare, freed, IsTidy, Distinct-drop, unflagged-congr, kept_unflagged, kept_same, keep-Distinct,
  count_all, count_none, count_le,
}

-- The pool after a sweep at `now`.
pub record IsPurged (c : Config) (now : ℕ) (s u : Pool) : Type 0 where
  pub in_order : IsPool c u
  pub tidy : IsTidy u
  pub survivors : live u ≡ keep c now s.pool (live s)
  pub conserved : u.poolnum + freed u ≡ s.poolnum + freed s
  pub contents : All (λ x. u.pool x ≡ s.pool x) (live u)
  pub keys : (x : ℕ) → tuple_key (u.pool x) ≡ tuple_key (s.pool x)
  pub accounts :
      u.whitelist_expired + u.greylist_expired + u.poolnum
      ≡ s.whitelist_expired + s.greylist_expired + s.poolnum

All-refl : (p : ℕ → Type 0) (xs : List ℕ) → ((x : ℕ) → p x) → All p xs
All-refl p [] h = tt
All-refl p (x ∷ xs) h = (h x, All-refl p xs h)

module _ (c : Config) (now : ℕ) (s : Pool) (v : IsPool c s) where
  module _ (r : Pool × ℕ) (w : (IsLeft c now s v) r) where
    abbrev q : ℕ → Tuple
    q = r.0.pool

    abbrev kept : List ℕ
    kept = keep c now s.pool (live s)

    -- The array after both loops.
    abbrev slots : List ℕ
    slots = flagged_slots q 0 c.poolmax

    abbrev unused : List ℕ
    unused = drop (freed s) (spare s)

    abbrev u : Pool
    u = record r.0 { poolnum = r.1; tuplespace = kept ++ (slots ++ unused) }

    second_loop :
        s.poolnum + freed s < c.poolmax
        → free_loop c c.poolmax 0 r.1 (record r.0 { poolnum = r.1 }) ≡ done u
    second_loop h =
        let t : Pool = record r.0 { poolnum = r.1 } in
        free_loop-flagged_slots c c.poolmax 0 r.1 t (w.swept.size ∙ v.full)
          (omega (arith, total c now s v r w, kept_number c now s v r w))
        ∙ rw (front, behind) refl
      where
        front : take r.1 r.0.tuplespace ≡ kept
        front = w.swept.front

        behind : drop (r.1 + flagged q 0 c.poolmax) r.0.tuplespace ≡ unused
        behind =
            sym (
              drop-drop (freed s) s.poolnum (r.1 + flagged q 0 c.poolmax) r.0.tuplespace
                (omega (arith, total c now s v r w, kept_number c now s v r w)))
            ∙ ap (drop (freed s)) w.behind

    slots_flagged : All (λ x. (q x).f.remove ≡ true) slots
    slots_flagged = flagged_slots-All _ q 0 c.poolmax (λ x a b f. f)

    module _ (tidy : IsTidy s) where
      unused_unflagged : All (λ x. (q x).f.remove ≡ false) unused
      unused_unflagged =
          unflagged-congr s.pool q unused (All-drop _ (freed s) (spare s) w.untouched) tidy

      kept_plain : All (λ x. (q x).f.remove ≡ false) kept
      kept_plain = kept_unflagged s.pool q c now (live s) w.marked

      u-Distinct : Distinct (kept ++ (slots ++ unused))
      u-Distinct =
          Distinct-append kept (slots ++ unused)
            (keep-Distinct c now s.pool (live s) (parts c now s v).0)
            (Distinct-append slots unused (flagged_slots-Distinct q 0 c.poolmax)
              (Distinct-drop (freed s) (spare s) (parts c now s v).1)
              (flags_apart q true slots unused slots_flagged
                (All-impl _ _ unused (λ x e e'. cc) unused_unflagged)))
            (All-impl _ _ kept
              (λ x h.
                All-append (λ y. x ≢ y) slots unused h.0
                  (All-drop (λ y. x ≢ y) (freed s) (spare s) h.1))
              (All-and _ _ kept
                (flags_apart q false kept slots kept_plain
                  (All-impl _ _ slots (λ x e e'. cc) slots_flagged))
                (keep-All c now (λ x. All (λ y. x ≢ y) (spare s)) s.pool (live s)
                  (parts c now s v).2)))

      live_u : take r.1 (kept ++ (slots ++ unused)) ≡ kept
      live_u = rw (kept_number c now s v r w) (take_append kept (slots ++ unused))

      spare_u : drop r.1 (kept ++ (slots ++ unused)) ≡ slots ++ unused
      spare_u = rw (kept_number c now s v r w) (drop_append kept (slots ++ unused))

      freed_u : count_flagged q (drop r.1 (kept ++ (slots ++ unused))) ≡ length slots
      freed_u = rw spare_u (
          omega (
            arith,
            count_flagged-append q slots unused,
            count_all q slots slots_flagged,
            count_none q unused unused_unflagged,
          ))

      u-IsTidy : IsTidy u
      u-IsTidy = rw (freed_u, spare_u, drop_append slots unused) unused_unflagged

      u-length : length (kept ++ (slots ++ unused)) ≡ c.poolmax
      u-length = omega (
        arith,
        length-append kept (slots ++ unused),
        length-append slots unused,
        length-flagged_slots q 0 c.poolmax,
        length-drop (freed s) (spare s),
        length-drop s.poolnum s.tuplespace,
        count_le s.pool (spare s),
        total c now s v r w,
        v.full,
        v.bounded,
      )

      Below : ℕ → Type 0
      Below x = x < c.poolmax

      u-IsPool : IsPool c u
      unfolding Below
      u-IsPool = record {
        tuples = λ x. w.swept.tuples x (v.tuples x);
        full = u-length;
        bounded = omega (
          arith,
          kept_number c now s v r w,
          keep-length c now s.pool (live s),
          length-live c now s v,
          v.bounded,
        );
        ascending = subst (IsAscending key_cmp (slot_key u)) (sym live_u) (
            IsAscending-congr key_cmp (slot_key s) (slot_key u) kept
              (All-refl _ kept (λ x. sym (w.swept.keys x)))
              (keep-IsAscending c now s s.pool (live s) v.ascending));
        distinct = u-Distinct;
        slots =
            All-append Below kept (slots ++ unused)
              (keep-All c now Below s.pool (live s) (All-take Below s.poolnum s.tuplespace v.slots))
              (All-append Below slots unused
                (flagged_slots-All Below q 0 c.poolmax (λ x a b f. omega arith))
                (All-drop Below (freed s) (spare s)
                  (All-drop Below s.poolnum s.tuplespace v.slots)));
      }

      u-IsPurged : IsPurged c now s (watermarks u)
      unfolding watermarks
      u-IsPurged = record {
        in_order = record {
          tuples = u-IsPool.tuples;
          full = u-IsPool.full;
          bounded = u-IsPool.bounded;
          ascending = u-IsPool.ascending;
          distinct = u-IsPool.distinct;
          slots = u-IsPool.slots;
        };
        tidy = u-IsTidy;
        survivors = live_u;
        conserved = omega (
          arith,
          freed_u,
          length-flagged_slots q 0 c.poolmax,
          total c now s v r w,
          kept_number c now s v r w,
        );
        contents = rw live_u (kept_same s.pool q c now (live s) w.marked);
        keys = w.swept.keys;
        accounts =
            omega (arith, w.swept.accounts, kept_number c now s v r w, length-live c now s v);
      }

  -- On a pool in order, where the slots freed before stand first among those without an entry and a
  -- slot was never used, `tuple_expire` returns; the pool stays in order, and the freed slots first;
  -- its entries are those that outlive the sweep, in their order, with what they held; as many slots
  -- were never used as before; no tuple changes its key, and each entry that goes is counted once.
  pub tuple_expire-IsPurged :
      IsTidy s → s.poolnum + freed s < c.poolmax → Returns (tuple_expire c now s) (IsPurged c now s)
  unfolding tuple_expire
  tuple_expire-IsPurged tidy h =
      Returns-bind (expire_loop c now s.poolnum 0 0 (written c now s v)) _ (IsLeft c now s v)
        (IsPurged c now s) (first_loop c now s v)
        (λ r w. rw (second_loop r w h) (u-IsPurged r w tidy))

  -- Without one it aborts, if an entry goes or a slot was freed before.
  pub tuple_expire_full :
      c.poolmax ≤ s.poolnum + freed s
      → length (keep c now s.pool (live s)) < s.poolnum + freed s
      → tuple_expire c now s ≡ abort
  unfolding tuple_expire
  tuple_expire_full h gone =
      bind-abort (expire_loop c now s.poolnum 0 0 (written c now s v)) _ (IsLeft c now s v)
        (first_loop c now s v)
        (λ r w.
          let t : Pool = record r.0 { poolnum = r.1 } in
          let sum = total c now s v r w in
          let number = kept_number c now s v r w in
          rw
            (free_loop_full c c.poolmax 0 r.1 t (w.swept.size ∙ v.full) (omega arith) (omega arith))
            refl)

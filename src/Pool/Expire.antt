-- ===== src/Pool/Expire.antt =====
-- The first loop of `tuple_expire` in server/tuple.c, which compacts `g_tuplespace` in place: what
-- is left is the entries that stay, in their order, and each entry that goes is counted once.
use x_grey.Prelude.{
  ℕ, suc, ◌+◌, ◌≤◌, ◌<◌, ◌≡◌, refl, sym, ap, ◌∙◌, inl, inr, Bool, true, false, not, List, [], ◌∷◌,
  ◌++◌, arith, All, length, length-set, set, take, drop, Returns, Returns-impl, if◌then◌else◌,
  Bool-cases, ◌==◌, ==_iff,
}
use mathlib.Core.List.{append_assoc, append-nil}
use x_grey.Sorted.{IsAscending}
use x_grey.Tuple.{Tuple}
use x_grey.Tuple.Key.{IsTuple, tuple_key, key_cmp}
use x_grey.Pool.{Config, Pool, update, mark, is_expired, count_removed, expire_loop}
use native.Mathlib.Numerals.{add-one}
use x_grey.Pool.Cells.{drop-set, take-set, first_cell}
use x_grey.Pool.Search.{slot_key}

module _ (c : Config) (now : ℕ) where
  -- The entry outlives a sweep at `now`.
  unfoldable pub stays : Tuple → Bool
  unfolding mark
  stays t = not (mark c now t).f.remove

  -- The reference for the loop.
  unfoldable pub keep : (ℕ → Tuple) → List ℕ → List ℕ
  keep pool [] = []
  keep pool (x ∷ xs) = let rest = keep pool xs in if stays (pool x) then x ∷ rest else rest

  stays-mark : (t : Tuple) → stays (mark c now t) ≡ stays t
  unfolding stays mark is_expired
  stays-mark t = ground arith

  stays-update :
      (pool : ℕ → Tuple) (x y : ℕ) → stays (update pool x (mark c now (pool x)) y) ≡ stays (pool y)
  unfolding update
  stays-update pool x y = elim (Bool-cases (y == x)) [
    | inl e ↦ let same : y ≡ x = (==_iff y x).0 e in rw (e, same) (stays-mark (pool x))
    | inr e ↦ rw e refl
  ]

  keep-congr :
      (p q : ℕ → Tuple) (xs : List ℕ)
      → ((y : ℕ) → stays (p y) ≡ stays (q y))
      → keep p xs ≡ keep q xs
  unfolding keep
  keep-congr p q [] h = refl
  keep-congr p q (x ∷ xs) h = rw (h x, keep-congr p q xs h)

  pub keep-All : (P : ℕ → Type 0) (p : ℕ → Tuple) (xs : List ℕ) → All P xs → All P (keep p xs)
  unfolding keep
  keep-All P p [] h = tt
  keep-All P p (x ∷ xs) h = elim (Bool-cases (stays (p x))) [
    | inl e ↦ rw e (h.0, keep-All P p xs h.1)
    | inr e ↦ rw e (keep-All P p xs h.1)
  ]

  -- What stays keeps its order.
  pub keep-IsAscending :
      (s : Pool) (p : ℕ → Tuple) (xs : List ℕ)
      → IsAscending key_cmp (slot_key s) xs
      → IsAscending key_cmp (slot_key s) (keep p xs)
  unfolding keep
  keep-IsAscending s p [] h = tt
  keep-IsAscending s p (x ∷ xs) h = elim (Bool-cases (stays (p x))) [
    | inl e ↦ rw e (keep-All _ p xs h.0, keep-IsAscending s p xs h.1)
    | inr e ↦ rw e (keep-IsAscending s p xs h.1)
  ]

  pub keep-length : (p : ℕ → Tuple) (xs : List ℕ) → length (keep p xs) ≤ length xs
  unfolding keep
  keep-length p [] = omega arith
  keep-length p (x ∷ xs) = ground (arith, keep-length p xs)

  -- What the loop returns, over the slots `rest` that are left to it.
  pub record IsSwept (s : Pool) (j : ℕ) (rest : List ℕ) (r : Pool × ℕ) : Type 0 where
    pub front : take r.1 r.0.tuplespace ≡ take j s.tuplespace ++ keep s.pool rest
    pub number : r.1 ≡ j + length (keep s.pool rest)
    pub size : length r.0.tuplespace ≡ length s.tuplespace
    pub keys : (x : ℕ) → tuple_key (r.0.pool x) ≡ tuple_key (s.pool x)
    pub tuples : (x : ℕ) → IsTuple (s.pool x) → IsTuple (r.0.pool x)
    pub accounts :
        r.0.whitelist_expired + r.0.greylist_expired + length (keep s.pool rest)
        ≡ s.whitelist_expired + s.greylist_expired + length rest
    pub low_high : (r.0.tuples_low ≡ s.tuples_low) × (r.0.tuples_high ≡ s.tuples_high)

  mark_key : (t : Tuple) → tuple_key (mark c now t) ≡ tuple_key t
  unfolding mark
  mark_key t = elim (Bool-cases (is_expired c now t)) [ inl e ↦ rw e refl | inr e ↦ rw e refl ]

  mark-IsTuple : (t : Tuple) → IsTuple t → IsTuple (mark c now t)
  unfolding mark
  mark-IsTuple t h = elim (Bool-cases (is_expired c now t)) [
    | inl e ↦ rw e (record {
      ip_length = h.ip_length;
      from_length = h.from_length;
      to_length = h.to_length;
      from_fits = h.from_fits;
      to_fits = h.to_fits;
    })
    | inr e ↦ rw e h
  ]

  -- One round, on the entry at `slot`.
  abbrev marked : Pool → ℕ → Pool
  marked s slot = record s { pool = update s.pool slot (mark c now (s.pool slot)) }

  round_keys : (s : Pool) (slot x : ℕ) → tuple_key ((marked s slot).pool x) ≡ tuple_key (s.pool x)
  unfolding update
  round_keys s slot x = elim (Bool-cases (x == slot)) [
    | inl e ↦ let same : x ≡ slot = (==_iff x slot).0 e in rw (e, same) (mark_key (s.pool slot))
    | inr e ↦ rw e refl
  ]

  round_tuples : (s : Pool) (slot x : ℕ) → IsTuple (s.pool x) → IsTuple ((marked s slot).pool x)
  unfolding update
  round_tuples s slot x h = elim (Bool-cases (x == slot)) [
    | inl e ↦
        let same : x ≡ slot = (==_iff x slot).0 e in
        rw e (mark-IsTuple (s.pool slot) (rw same at h))
    | inr e ↦ rw e h
  ]

  count_removed_space : (s : Pool) (b : Bool) → (count_removed s b).tuplespace ≡ s.tuplespace
  unfolding count_removed
  count_removed_space s true = refl
  count_removed_space s false = refl

  module _ (s : Pool) (x j : ℕ) (rest : List ℕ) where
    same_keep : keep (marked s x).pool rest ≡ keep s.pool rest
    same_keep = keep-congr _ _ rest (stays-update s.pool x)

    gone-IsSwept :
        (white : Bool) (r : Pool × ℕ)
        → stays (s.pool x) ≡ false
        → IsSwept (count_removed (marked s x) white) j rest r
        → IsSwept s j (x ∷ rest) r
    unfolding keep count_removed
    gone-IsSwept true r e w = record {
      front = w.front ∙ rw (e, same_keep) refl;
      number = w.number ∙ rw (e, same_keep) refl;
      size = w.size;
      keys = λ y. w.keys y ∙ round_keys s x y;
      tuples = λ y t. w.tuples y (round_tuples s x y t);
      accounts = rw e (omega (arith, w.accounts, ap length same_keep));
      low_high = w.low_high;
    }
    gone-IsSwept false r e w = record {
      front = w.front ∙ rw (e, same_keep) refl;
      number = w.number ∙ rw (e, same_keep) refl;
      size = w.size;
      keys = λ y. w.keys y ∙ round_keys s x y;
      tuples = λ y t. w.tuples y (round_tuples s x y t);
      accounts = rw e (omega (arith, w.accounts, ap length same_keep));
      low_high = w.low_high;
    }

    stay-IsSwept :
        (r : Pool × ℕ)
        → j < length s.tuplespace
        → stays (s.pool x) ≡ true
        → IsSwept (record (marked s x) { tuplespace = set s.tuplespace j x }) (j + 1) rest r
        → IsSwept s j (x ∷ rest) r
    unfolding keep
    stay-IsSwept r inside e w = record {
      front =
          w.front
          ∙ rw (e, same_keep, add-one j, take-set s.tuplespace j x inside)
              (append_assoc (take j s.tuplespace) (x ∷ []) (keep s.pool rest));
      number = rw e (omega (arith, w.number, ap length same_keep));
      size = w.size ∙ length-set s.tuplespace j x;
      keys = λ y. w.keys y ∙ round_keys s x y;
      tuples = λ y t. w.tuples y (round_tuples s x y t);
      accounts = rw e (omega (arith, w.accounts, ap length same_keep));
      low_high = w.low_high;
    }

  not-true : (b : Bool) → b ≡ true → not b ≡ false
  not-true b h = ground arith

  not-false : (b : Bool) → b ≡ false → not b ≡ true
  not-false b h = ground arith

  -- Over the slots that are left, with the write index not past the read index, the loop returns.
  -- The array then starts with what was kept before and the entries that outlive the sweep, in order;
  -- the index returned is their number; each entry that goes is counted once; and no tuple changes
  -- its key.
  pub expire_loop-IsSwept :
      (rest : List ℕ) (i j : ℕ) (s : Pool)
      → take (length rest) (drop i s.tuplespace) ≡ rest
      → j ≤ i
      → Returns (expire_loop c now (length rest) i j s) (IsSwept s j rest)
  unfolding expire_loop
  expire_loop-IsSwept [] i j s h le =
      unfold keep in
      record {
        front = sym (append-nil (take j s.tuplespace));
        number = omega arith;
        size = refl;
        keys = λ x. refl;
        tuples = λ x t. t;
        accounts = refl;
        low_high = (refl, refl);
      }
  expire_loop-IsSwept (x ∷ rest) i j s h le =
      let (e, h', inside) = first_cell s.tuplespace i x rest h in
      rw (e, expire_loop)
        (elim (Bool-cases (mark c now (s.pool x)).f.remove) [
          | inl gone ↦ rw gone (
              let s' : Pool = count_removed (marked s x) (mark c now (s.pool x)).f.whitelist in
              Returns-impl (expire_loop c now (length rest) (i + 1) j s') (IsSwept s' j rest)
                (IsSwept s j (x ∷ rest))
                (λ r. gone-IsSwept s x j rest _ r (unfold stays in not-true _ gone))
                (expire_loop-IsSwept rest (i + 1) j s'
                  (rw
                    (
                      count_removed_space (marked s x) (mark c now (s.pool x)).f.whitelist,
                      add-one i,
                    )
                    h')
                  (omega arith)))
          | inr stay ↦ rw stay (
              let s' : Pool = record (marked s x) { tuplespace = set s.tuplespace j x } in
              Returns-impl (expire_loop c now (length rest) (i + 1) (j + 1) s')
                (IsSwept s' (j + 1) rest) (IsSwept s j (x ∷ rest))
                (λ r. stay-IsSwept s x j rest r (omega arith) (unfold stays in not-false _ stay))
                (expire_loop-IsSwept rest (i + 1) (j + 1) s'
                  (rw (add-one i, drop-set s.tuplespace j (suc i) x (omega arith)) h')
                  (omega arith)))
        ])

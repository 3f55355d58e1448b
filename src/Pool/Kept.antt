-- ===== src/Pool/Kept.antt =====
-- Changes of a tuple in the pool of server/tuple.c that leave its key.
use x_grey.Prelude.{
  ℕ, ◌≡◌, refl, sym, ap, ◌∙◌, List, [], ◌∷◌, All, Bool-cases, inl, inr, ◌==◌, ==_iff,
}
use x_grey.Tuple.{Tuple}
use x_grey.Tuple.Key.{IsTuple, tuple_key, key_cmp}
use x_grey.Pool.{Config, Pool, update, counted}
use x_grey.Pool.Search.{slot_key, live, IsPool}
use x_grey.Pool.Gap.{IsAscending-congr}

pub counted-IsPool : (c : Config) (s : Pool) → IsPool c s → IsPool c (counted s)
counted-IsPool c s v = record {
  tuples = v.tuples;
  full = v.full;
  bounded = v.bounded;
  ascending = v.ascending;
  distinct = v.distinct;
  slots = v.slots;
}

All-slots : (P : ℕ → Type 0) (xs : List ℕ) → ((x : ℕ) → P x) → All P xs
All-slots P [] h = tt
All-slots P (x ∷ xs) h = (h x, All-slots P xs h)

pub update-key :
    (pool : ℕ → Tuple) (slot x : ℕ) (u : Tuple)
    → tuple_key u ≡ tuple_key (pool slot)
    → tuple_key (pool x) ≡ tuple_key (update pool slot u x)
unfolding update
update-key pool slot x u h = elim (Bool-cases (x == slot)) [
  | inl e ↦ rw e (ap (λ i. tuple_key (pool i)) ((==_iff x slot).0 e) ∙ sym h)
  | inr e ↦ rw e refl
]

update-IsTuple :
    (pool : ℕ → Tuple) (slot x : ℕ) (u : Tuple)
    → IsTuple u
    → IsTuple (pool x)
    → IsTuple (update pool slot u x)
unfolding update
update-IsTuple pool slot x u h g = elim (Bool-cases (x == slot)) [ inl e ↦ rw e h | inr e ↦ rw e g ]

-- Writing a tuple with the key of the one that was there, and any number of whitelisted tuples.
pub update-IsPool :
    (c : Config) (s : Pool) (slot n : ℕ) (u : Tuple)
    → IsPool c s
    → IsTuple u
    → tuple_key u ≡ tuple_key (s.pool slot)
    → IsPool c (record s { pool = update s.pool slot u; whitelisted = n })
update-IsPool c s slot n u v h e = record {
  tuples = λ x. update-IsTuple s.pool slot x u h (v.tuples x);
  full = v.full;
  bounded = v.bounded;
  ascending =
      IsAscending-congr key_cmp (slot_key s) (λ x. tuple_key (update s.pool slot u x)) (live s)
        (All-slots _ (live s) (λ x. update-key s.pool slot x u e)) v.ascending;
  distinct = v.distinct;
  slots = v.slots;
}

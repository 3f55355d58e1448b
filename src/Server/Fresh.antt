-- ===== src/Server/Fresh.antt =====
-- The daemon that server/globals.c starts, before its files are read, has every slot unused.
use x_grey.Prelude.{ℕ, zero, suc, ◌+◌, ◌≡◌, ◌<◌, refl, false, arith, All, All-drop}
use x_grey.Pool.{Config, count_from}
use x_grey.Pool.Spare.{freed, count_none}
use x_grey.Server.Start.{start, start_pool, start-IsPool}
use x_grey.Server.Removal.{IsReady}

unflagged :
    (c : Config) (now : ℕ) (i n : ℕ)
    → All (λ x. ((start c now).tuples.pool x).f.remove ≡ false) (count_from i n)
unfolding start start_pool count_from
unflagged c now i zero = tt
unflagged c now i (suc n) = (refl, unflagged c now (i + 1) n)

pub start-IsReady : (c : Config) (now n : ℕ) → n < c.poolmax → IsReady c n (start c now)
unfolding start start_pool
start-IsReady c now n h =
    let v = start-IsPool c now in
    let plain = unflagged c now 0 c.poolmax in
    record {
      in_order = v.0;
      tidy = All-drop _ (freed (start c now).tuples) (count_from 0 c.poolmax) plain;
      lists = v.1;
      unused = omega (arith, count_none (start c now).tuples.pool (count_from 0 c.poolmax) plain);
    }

-- ===== src/Crc/Table.antt =====
-- The table of common/crc32.c against the polynomial that it tabulates.
use Prim.Native.Nat.{bit_xor}
use x_grey.Prelude.{
  ℕ, zero, suc, ◌+◌, ◌/◌, ◌%◌, ◌<◌, ◌≡◌, refl, ap, ◌∙◌, none, some, Bool, true, false, List, [],
  ◌∷◌, ◌==◌, ==_iff, if◌then◌else◌, arith, length, get_elem?, Bool-cases, inl, inr,
}
use x_grey.Crc.{crc32_table, table_at}

-- One step of the division: the lowest bit goes out, and takes the polynomial with it when set.
unfoldable pub divide : ℕ → ℕ
divide n = if n % 2 == 1 then bit_xor (n / 2) 0xedb88320 else n / 2

unfoldable pub divide_by : ℕ → ℕ → ℕ
unfolding divide
divide_by zero n = n
divide_by (suc k) n = divide_by k (divide n)

-- The entries from index `i` on are right.
unfoldable agrees : ℕ → List ℕ → Bool
agrees i [] = true
agrees i (w ∷ ws) = if w == divide_by 8 i then agrees (i + 1) ws else false

look : List ℕ → ℕ → ℕ
look ws n = elim (get_elem? ws n) [ none ↦ 0 | some w ↦ w ]

agrees-look :
    (ws : List ℕ) (i n : ℕ) → agrees i ws ≡ true → n < length ws → look ws n ≡ divide_by 8 (i + n)
unfolding agrees look
agrees-look [] i n h k = absurd (omega arith)
agrees-look (w ∷ ws) i zero h k = elim (Bool-cases (w == divide_by 8 i)) [
  | inr e ↦ let h' : false ≡ true = rw e at h in ground arith
  | inl e ↦ (==_iff w (divide_by 8 i)).0 e ∙ ap (divide_by 8) (omega arith)
]
agrees-look (w ∷ ws) i (suc n) h k = elim (Bool-cases (w == divide_by 8 i)) [
  | inr e ↦ let h' : false ≡ true = rw e at h in ground arith
  | inl e ↦ agrees-look ws (i + 1) n (rw e at h) (omega arith) ∙ ap (divide_by 8) (omega arith)
]

-- Every entry of the table below 256 is its index after eight steps of the division by the
-- polynomial 0xEDB88320.
pub table_at-divide_by : (n : ℕ) → n < 256 → table_at n ≡ divide_by 8 n
unfolding table_at crc32_table agrees look divide_by
table_at-divide_by n h =
    agrees-look crc32_table 0 n all_right (omega arith) ∙ ap (divide_by 8) (omega arith)
  where
    all_right : agrees 0 crc32_table ≡ true
    all_right = refl

-- ===== src/Names/Round.antt =====
-- The names of common/globals.c read back.
use x_grey.Prelude.{ℕ, zero, suc, ◌<◌, ◌≡◌, refl, arith}
use x_grey.Protocol.{
  Reason, reason_code, ip, from, from_domain, to, to_domain, greylist, whitelist, no_reason,
}
use x_grey.Names.{ci_map_int, ci_map_chars, c_ift, c_reason}

pub ci_map_int-verdict : (v : ℕ) → v < 5 → ci_map_int (ci_map_chars v c_ift) c_ift ≡ v
unfolding ci_map_int ci_map_chars
ci_map_int-verdict zero h = refl
ci_map_int-verdict (suc zero) h = refl
ci_map_int-verdict (suc (suc zero)) h = refl
ci_map_int-verdict (suc (suc (suc zero))) h = refl
ci_map_int-verdict (suc (suc (suc (suc zero)))) h = refl
ci_map_int-verdict (suc (suc (suc (suc (suc v))))) h = absurd (omega arith)

ci_map_int-reason_code :
    (r : Reason) → ci_map_int (ci_map_chars (reason_code r) c_reason) c_reason ≡ reason_code r
unfolding ci_map_int ci_map_chars c_reason reason_code
ci_map_int-reason_code no_reason = refl
ci_map_int-reason_code ip = refl
ci_map_int-reason_code from = refl
ci_map_int-reason_code from_domain = refl
ci_map_int-reason_code to = refl
ci_map_int-reason_code to_domain = refl
ci_map_int-reason_code greylist = refl
ci_map_int-reason_code whitelist = refl

-- The name of every verdict but `IFT_NONE` is read back as that verdict, and the name of every reason
-- as that reason.
pub ci_map_int-ci_map_chars :
    (v : ℕ) (r : Reason)
    → v < 5
    → (ci_map_int (ci_map_chars v c_ift) c_ift ≡ v)
      × (ci_map_int (ci_map_chars (reason_code r) c_reason) c_reason ≡ reason_code r)
ci_map_int-ci_map_chars v r h = (ci_map_int-verdict v h, ci_map_int-reason_code r)

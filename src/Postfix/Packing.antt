-- ===== src/Postfix/Packing.antt =====
-- The address that `check_greylist` of postfix/pfc.c packs.
use x_grey.Prelude.{ℕ, suc, ◌%◌, ◌<◌, ◌≡◌, refl, List, [], ◌∷◌, not, ◌==◌, arith, done, ◌>>=◌}
use x_grey.Protocol.{version}
use x_grey.Text.Number.{strtoul, decimal}
use x_grey.Text.Number.Round.{strtoul-decimal}
use x_grey.Text.Address.{ipv4}
use x_grey.Client.{Network, ask}
use x_grey.Postfix.{pack_ip, check_greylist}

byte : (v : ℕ) → v < 256 → v % 256 ≡ v
byte v h = omega arith

pack_ip-dot :
    (n v : ℕ) (rest : List ℕ)
    → v < 256
    → pack_ip (suc (suc n)) (decimal v (b'.' ∷ rest))
      ≡ (pack_ip (suc n) rest >>= λ more. done (v ∷ more))
unfolding pack_ip
pack_ip-dot n v rest h =
    let e = strtoul-decimal v (b'.' ∷ rest) (omega arith) refl in rw (e, pack_ip, e, byte v h) refl

strtoul-octet : (v : ℕ) → v < 256 → (strtoul (decimal v [])).0 % 256 ≡ v
strtoul-octet v h = rw (strtoul-decimal v [] (omega arith) tt) (byte v h)

-- An address that is printed with a dot between its four octets is packed into them, so that the
-- client asks about it.
pub check_greylist-ipv4 :
    (secret : List ℕ) (a b c d : ℕ) (from to : List ℕ) (network : List ℕ → Network)
    → a < 256
    → b < 256
    → c < 256
    → d < 256
    → check_greylist secret (ipv4 a b c d []) from to network
      ≡ ask (λ v. not (v == version)) secret (a ∷ b ∷ c ∷ d ∷ []) from to network
unfolding check_greylist ipv4
check_greylist-ipv4 secret a b c d from to network ha hb hc hd =
    rw (pack_ip-dot 2 a _ ha, pack_ip-dot 1 b _ hb, pack_ip-dot 0 c _ hc, strtoul-octet d hd) refl

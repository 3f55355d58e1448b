-- ===== src/Client/Sent.antt =====
-- The request that the clients send is the one that server/gld.c reads.
use x_grey.Prelude.{
  ℕ, zero, suc, ◌+◌, ◌-◌, ◌*◌, ◌/◌, ◌%◌, ◌^◌, ◌<◌, ◌≤◌, ◌≡◌, refl, sym, ap, subst, ◌∙◌, some, false,
  List, [], ◌∷◌, ◌++◌, ltb, length, length-append, length-take, min, take, drop, replicate, arith,
}
use mathlib.Core.List.{append_assoc}
use x_grey.Protocol.{cmd_greylist}
use x_grey.Tuple.{Tuple}
use x_grey.Tuple.Key.{IsTuple}
use x_grey.Server.Sanitize.{OnSome, IsWhole, greylist_sanitize_req-IsWhole}
use x_grey.Server.Packet.{Request, greylist_sanitize_req, ntohs_at, copy_in, data_at}
use x_grey.Client.{htons, request_body, mta_postfix}

-- The triple of a request that came in at `now`: an address of four octets, and of both texts what
-- fits, with the note whether that is all.
abbrev pub triple : ℕ → List ℕ → List ℕ → List ℕ → Tuple
triple now ip from to = record {
  ctime = now;
  atime = now;
  fromsize = min 107 (length from);
  tosize = min 107 (length to);
  pad = 0xDECAFBAD;
  f = record {
    whitelist = false;
    remove = false;
    trunc_from = ltb 107 (length from);
    trunc_to = ltb 107 (length to);
    ipv6 = false;
  };
  ip = ip ++ replicate 12 0;
  from = take 107 from ++ replicate (108 - min 107 (length from)) 0;
  to = take 107 to ++ replicate (108 - min 107 (length to)) 0;
}

-- A datagram in the receive buffer, before what earlier ones left there.
abbrev pub arrived : ℕ → ℕ → List ℕ → List ℕ → Request
arrived now clock packet rest = record {
  now = now;
  clock = clock;
  buffer = packet ++ rest;
  size = length packet;
}

pub ntohs-htons : (n : ℕ) → n < 2 ^ 16 → n / 256 % 256 * 256 + n % 256 ≡ n
ntohs-htons n h = omega arith

-- The text at the end of what is copied.
take_first :
    (n m : ℕ) (xs ys : List ℕ) → n ≤ m → m ≤ length xs → take n (take m xs ++ ys) ≡ take n xs
take_first zero m xs ys h k = refl
take_first (suc n) zero xs ys h k = absurd (omega arith)
take_first (suc n) (suc m) [] ys h k = absurd (omega arith)
take_first (suc n) (suc m) (x ∷ xs) ys h k =
    ap (λ (r : List ℕ). x ∷ r) (take_first n m xs ys (omega arith) (omega arith))

drop_first : (m : ℕ) (xs ys : List ℕ) → m ≤ length xs → drop m (take m xs ++ ys) ≡ ys
drop_first zero xs ys k = refl
drop_first (suc m) [] ys k = absurd (omega arith)
drop_first (suc m) (x ∷ xs) ys k = drop_first m xs ys (omega arith)

take_short : (n : ℕ) (xs : List ℕ) → take (min n (length xs)) xs ≡ take n xs
take_short zero xs = ap (λ n. take n xs) (none_left (length xs))
  where
    none_left : (n : ℕ) → min 0 n ≡ 0
    none_left n = omega arith
take_short (suc n) [] = ap (λ n. take n []) (none_there n)
  where
    none_there : (n : ℕ) → min (suc n) 0 ≡ 0
    none_there n = omega arith
take_short (suc n) (x ∷ xs) =
    ap (λ k. take k (x ∷ xs)) (both n (length xs)) ∙ ap (λ (r : List ℕ). x ∷ r) (take_short n xs)
  where
    both : (n m : ℕ) → min (suc n) (suc m) ≡ suc (min n m)
    both n m = omega arith

drop_add : (n m : ℕ) (xs : List ℕ) → drop (n + m) xs ≡ drop m (drop n xs)
drop_add zero m xs = ap (λ n. drop n xs) (same m)
  where
    same : (n : ℕ) → 0 + n ≡ n
    same n = omega arith
drop_add (suc n) m [] = nothing (suc n + m) ∙ sym (nothing m)
  where
    nothing : (n : ℕ) → drop {A = ℕ} n [] ≡ []
    nothing zero = refl
    nothing (suc n) = refl
drop_add (suc n) m (x ∷ xs) = ap (λ k. drop k (x ∷ xs)) (out n m) ∙ drop_add n m xs
  where
    out : (n m : ℕ) → suc n + m ≡ suc (n + m)
    out n m = omega arith

short_size : (n : ℕ) → min 107 (min n 200) ≡ min 107 n
short_size n = omega arith

short_flag : (n : ℕ) → ltb (min 107 n) (min n 200) ≡ ltb 107 n
short_flag n = ground arith

-- What the two texts and the bytes behind them look like to `memcpy`.
texts_first :
    (from to rest : List ℕ)
    → take
        (min 107 (length from))
        ((take (min (length from) 200) from ++ take (min (length to) 200) to) ++ rest)
      ≡ take 107 from
texts_first from to rest =
    ap (take (min 107 (length from))) (append_assoc (take (min (length from) 200) from) _ rest)
    ∙ take_first (min 107 (length from)) (min (length from) 200) from _ (omega arith) (omega arith)
    ∙ take_short 107 from

texts_second :
    (from to rest : List ℕ)
    → take (min 107 (length to)) (
        drop
          (min (length from) 200)
          ((take (min (length from) 200) from ++ take (min (length to) 200) to) ++ rest))
      ≡ take 107 to
texts_second from to rest =
    ap (λ (xs : List ℕ). take (min 107 (length to)) (drop (min (length from) 200) xs))
      (append_assoc (take (min (length from) 200) from) _ rest)
    ∙ ap (take (min 107 (length to))) (drop_first (min (length from) 200) from _ (omega arith))
    ∙ take_first (min 107 (length to)) (min (length to) 200) to rest (omega arith) (omega arith)
    ∙ take_short 107 to

whole_size :
    (from to : List ℕ)
    → ltb
        (length
          (replicate 20 0 ++ (take (min (length from) 200) from ++ take (min (length to) 200) to)))
        (4 + min (length from) 200 + min (length to) 200 + data_at)
      ≡ false
whole_size from to = not_less _ _ (
    omega (
      arith,
      length-append (take (min (length from) 200) from) (take (min (length to) 200) to),
      length-take (min (length from) 200) from,
      length-take (min (length to) 200) to,
    ))
  where
    not_less : (n m : ℕ) → m ≤ n → ltb n m ≡ false
    not_less n m h = ground arith

-- A request signed with any four bytes, with an address of four octets, is made into the tuple of
-- its address, its sender and its recipient.
pub greylist_sanitize_req-triple :
    (now clock a b c d p q r s : ℕ) (from to rest : List ℕ)
    → greylist_sanitize_req (
        arrived now clock
          (p ∷ q ∷ r ∷ s ∷ request_body mta_postfix cmd_greylist (a ∷ b ∷ c ∷ d ∷ []) from to)
          rest)
      ≡ some (triple now (a ∷ b ∷ c ∷ d ∷ []) from to)
unfolding greylist_sanitize_req request_body htons ntohs_at copy_in
greylist_sanitize_req-triple now clock a b c d p q r s from to rest =
    let f : ℕ = min (length from) 200 in
    let t : ℕ = min (length to) 200 in
    rw
      (
        ntohs-htons f (omega arith),
        ntohs-htons t (omega arith),
        copy_in,
        drop_add 20 f,
        whole_size from to,
        short_size (length from),
        short_size (length to),
        texts_first from to rest,
        texts_second from to rest,
        short_flag (length from),
        short_flag (length to),
      )
      refl

pub triple-IsTuple :
    (now a b c d : ℕ) (from to : List ℕ) → IsTuple (triple now (a ∷ b ∷ c ∷ d ∷ []) from to)
triple-IsTuple now a b c d from to =
    let packet : List ℕ =
      0 ∷ 0 ∷ 0 ∷ 0 ∷ request_body mta_postfix cmd_greylist (a ∷ b ∷ c ∷ d ∷ []) from to in
    let whole =
      subst (OnSome IsWhole) (greylist_sanitize_req-triple now now a b c d 0 0 0 0 from to []) (
        greylist_sanitize_req-IsWhole (arrived now now packet [])
          (omega (arith, length-append packet []))) in
    whole.tuple

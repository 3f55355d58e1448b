-- ===== src/Crc/Signed.antt =====
-- The signature that `send_packet` writes and the main loop of server/gld.c checks.
use x_grey.Prelude.{
  ℕ, suc, ◌+◌, ◌%◌, ◌^◌, ◌-◌, ◌≤◌, ◌<◌, ◌≡◌, refl, List, [], ◌∷◌, ◌++◌, length, arith, done,
  Returns, length-append, length-drop, inl, inr, ◌⊎◌, ap, sym, ◌∙◌, false, abort, lt→ltb, le→leb,
  take, drop, leb,
}
use x_grey.Crc.{crc32_round, crc32_loop, crc32, htonl, ntohl, packet_crc, send_packet, init_crc32}

crc32_loop_bound : (xs : List ℕ) (crc : ℕ) → crc < 2 ^ 32 → crc32_loop crc xs < 2 ^ 32
unfolding crc32_loop crc32_round
crc32_loop_bound [] crc h = h
crc32_loop_bound (x ∷ xs) crc h = crc32_loop_bound xs _ (omega arith)

take_all : (xs : List ℕ) → take (length xs) xs ≡ xs
take_all [] = refl
take_all (x ∷ xs) = cc (take_all xs)

crc32_whole :
    (crc : ℕ) (xs : List ℕ) → 0 < length xs → crc32 crc xs (length xs) ≡ done (crc32_loop crc xs)
unfolding crc32
crc32_whole crc xs h =
    rw (lt→ltb 0 (length xs) h, le→leb (length xs) (length xs) (omega arith), take_all xs) refl

pub ntohl-htonl : (n : ℕ) (xs : List ℕ) → n < 2 ^ 32 → ntohl (htonl n ++ xs) ≡ n
unfolding ntohl htonl
ntohl-htonl n xs h = omega arith

pub packet_crc_whole :
    (secret packet : List ℕ)
    → 0 < length secret
    → 4 < length packet
    → length packet < 2 ^ 64
    → packet_crc secret packet (length packet)
      ≡ done (crc32_loop (crc32_loop init_crc32 (drop 4 packet)) secret)
unfolding packet_crc
packet_crc_whole secret packet h k b =
    let size : (length packet + 2 ^ 64 - 4) % 2 ^ 64 ≡ length (drop 4 packet) =
      omega (arith, length-drop 4 packet) in
    rw (size, crc32_whole init_crc32 (drop 4 packet) (omega (arith, length-drop 4 packet)))
      (crc32_whole (crc32_loop init_crc32 (drop 4 packet)) secret h)

-- The same with more in the buffer than the packet.
take_prefix : (xs rest : List ℕ) → take (length xs) (xs ++ rest) ≡ xs
take_prefix [] rest = refl
take_prefix (x ∷ xs) rest = ap (λ (r : List ℕ). x ∷ r) (take_prefix xs rest)

crc32_prefix :
    (crc : ℕ) (xs rest : List ℕ)
    → 0 < length xs
    → crc32 crc (xs ++ rest) (length xs) ≡ done (crc32_loop crc xs)
unfolding crc32
crc32_prefix crc xs rest h =
    rw
      (
        lt→ltb 0 (length xs) h,
        le→leb (length xs) (length (xs ++ rest)) (omega (arith, length-append xs rest)),
        take_prefix xs rest,
      )
      refl

-- The checksum that signs a body.
abbrev pub signature : List ℕ → List ℕ → ℕ
signature secret body = crc32_loop (crc32_loop init_crc32 body) secret

pub signature_bound : (secret body : List ℕ) → signature secret body < 2 ^ 32
signature_bound secret body =
    crc32_loop_bound secret _ (crc32_loop_bound body init_crc32 (omega arith))

-- The four bytes before the body do not count.
pub packet_crc_prefix :
    (secret body rest : List ℕ) (a b c d : ℕ)
    → 0 < length secret
    → 0 < length body
    → length body + 4 < 2 ^ 64
    → packet_crc secret (a ∷ b ∷ c ∷ d ∷ (body ++ rest)) (length (a ∷ b ∷ c ∷ d ∷ body))
      ≡ done (signature secret body)
unfolding packet_crc
packet_crc_prefix secret body rest a b c d h k bound =
    rw (size (length body) bound, crc32_prefix init_crc32 body rest k)
      (crc32_whole (crc32_loop init_crc32 body) secret h)
  where
    size : (n : ℕ) → n + 4 < 2 ^ 64 → (suc (suc (suc (suc n))) + 2 ^ 64 - 4) % 2 ^ 64 ≡ n
    size n h = omega arith

-- What `send_packet` makes of a body.
pub record IsSigned (secret body packet : List ℕ) : Type 0 where
  pub body_kept : drop 4 packet ≡ body
  pub accepted : packet_crc secret packet (length packet) ≡ done (ntohl packet)

-- With a secret and a body that are not empty, signing returns, keeps the body, and the receiver's
-- check of the signature under the same secret accepts the packet.
pub send_packet-IsSigned :
    (secret body : List ℕ)
    → 0 < length secret
    → 0 < length body
    → length body + 4 < 2 ^ 64
    → Returns (send_packet secret body) (IsSigned secret body)
unfolding send_packet htonl
send_packet-IsSigned secret body h k b =
    let crc : ℕ = crc32_loop (crc32_loop init_crc32 body) secret in
    let bound : crc < 2 ^ 32 =
      crc32_loop_bound secret _ (crc32_loop_bound body init_crc32 (omega arith)) in
    let back : ntohl (htonl crc ++ body) ≡ crc = ntohl-htonl crc body bound in
    rw (packet_crc_whole secret (0 ∷ 0 ∷ 0 ∷ 0 ∷ body) h (omega arith) (omega arith)) (record {
      body_kept = refl;
      accepted =
          packet_crc_whole secret (htonl crc ++ body) h (omega arith) (omega arith)
          ∙ ap done (sym back);
    })

-- A packet of at most four bytes makes the check of its signature abort, whatever is in the
-- receive buffer, as long as that is shorter than the address space.
pub packet_crc_short :
    (secret buffer : List ℕ) (size : ℕ)
    → size ≤ 4
    → length buffer < 2 ^ 63
    → packet_crc secret buffer size ≡ abort
unfolding packet_crc crc32
packet_crc_short secret buffer size h b = elim (split size h) [
  | inl e ↦ rw e refl
  | inr less ↦
      rw
        (
          lt→ltb 0 ((size + 2 ^ 64 - 4) % 2 ^ 64) (omega arith),
          lt-leb ((size + 2 ^ 64 - 4) % 2 ^ 64) (length (drop 4 buffer))
              (omega (arith, length-drop 4 buffer)),
        )
        refl
]
  where
    split : (n : ℕ) → n ≤ 4 → (n ≡ 4) ⊎ (n < 4)
    split n p = ground arith

    lt-leb : (n m : ℕ) → m < n → leb n m ≡ false
    lt-leb n m p = ground arith

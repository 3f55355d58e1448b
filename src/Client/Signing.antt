-- ===== src/Client/Signing.antt =====
-- A packet that one side of the protocol signs with `send_packet`, as the other side reads it.
use x_grey.Prelude.{ℕ, ◌+◌, ◌^◌, ◌<◌, ◌≡◌, refl, sym, ap, ◌∙◌, List, ◌∷◌, ◌++◌, length, arith, done}
use x_grey.Crc.{packet_crc, htonl, ntohl, send_packet}
use x_grey.Crc.Signed.{signature, signature_bound, packet_crc_whole, packet_crc_prefix, ntohl-htonl}

-- The packet of a body.
abbrev pub packet_of : List ℕ → List ℕ → List ℕ
packet_of secret body = htonl (signature secret body) ++ body

module _ (secret body : List ℕ) (h : 0 < length secret) (k : 0 < length body)
    (bound : length body + 4 < 2 ^ 64) where
  pub send_packet-packet_of : send_packet secret body ≡ done (packet_of secret body)
  unfolding send_packet
  send_packet-packet_of =
      rw (packet_crc_whole secret (0 ∷ 0 ∷ 0 ∷ 0 ∷ body) h (omega arith) (omega arith)) refl

  -- The signature of a packet that lies in a larger buffer is the one that is in it.
  pub packet_crc-packet_of :
      (rest : List ℕ)
      → packet_crc secret (packet_of secret body ++ rest) (length (packet_of secret body))
        ≡ done (ntohl (packet_of secret body ++ rest))
  unfolding htonl
  packet_crc-packet_of rest =
      packet_crc_prefix secret body rest _ _ _ _ h k bound
      ∙ ap done
          (sym (ntohl-htonl (signature secret body) (body ++ rest) (signature_bound secret body)))

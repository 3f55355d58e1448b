-- ===== src/Control/Rules.antt =====
-- The command `iplist` of control/gld-mcp.c: what it sends, and what server/gld.c does with that.
use x_grey.Prelude.{
  ℕ, suc, ◌%◌, ◌^◌, ◌<◌, ◌≤◌, ◌≡◌, ◌≢◌, refl, ap, sym, subst, ◌∙◌, some, List, [], ◌∷◌, length,
  take, drop, set, replicate, arith, done, Returns, Returns-bind, ◌>>=◌,
}
use x_grey.Crc.{htonl}
use x_grey.Protocol
use x_grey.Protocol.{ift_none, no_reason, command_of}
use x_grey.Text.Number.{decimal}
use x_grey.Text.Number.Round.{strtoul-decimal}
use x_grey.Text.Address.{ipv4}
use x_grey.IpTree.{address_bits, ip_add_sm}
use x_grey.IpTree.Update.{IsListed, IsUpdate, ip_add_sm-IsUpdate}
use x_grey.Server.{Server}
use x_grey.Server.Answer.{length-address_bits}
use x_grey.Server.Packet.{Request, ntohs_at}
use x_grey.Daemon.{Setup, Host, replied, dispatch, cmd_mcp_iplist, handle_packet}
use x_grey.Client.{htons}
use x_grey.Client.Sent.{arrived, ntohs-htons}
use x_grey.Client.Signing.{packet_of, packet_crc-packet_of}
use x_grey.Client.Judged.{handle_packet-dispatch}
use x_grey.Control.{
  Cgilib, Around, send_request, iplist_body, address, no_octets, mask_at, verdict_word, iplist_one,
  iplist_parsed, told,
}

byte : (v : ℕ) → v < 256 → v % 256 ≡ v
byte v h = omega arith

-- An octet and the dot behind it.
address_dot :
    (n i v : ℕ) (array rest : List ℕ)
    → v < 256
    → address (suc n) i array (decimal v (b'.' ∷ rest)) ≡ address n (suc i) (set array i v) rest
unfolding address
address_dot n i v array rest h =
    let e = strtoul-decimal v (b'.' ∷ rest) (omega arith) refl in rw (e, address, e, byte v h) refl

address_slash :
    (n i v : ℕ) (array rest : List ℕ)
    → v < 256
    → address (suc n) i array (decimal v (b'/' ∷ rest)) ≡ (set array i v, i, b'/' ∷ rest)
unfolding address
address_slash n i v array rest h =
    let e = strtoul-decimal v (b'/' ∷ rest) (omega arith) refl in rw (e, address, e, byte v h) refl

-- Four octets as the data of a request.
abbrev pub octets_of : ℕ → ℕ → ℕ → ℕ → List ℕ
octets_of a b c d = a ∷ b ∷ c ∷ d ∷ replicate 12 0

address-ipv4 :
    (a b c d : ℕ) (rest : List ℕ)
    → a < 256
    → b < 256
    → c < 256
    → d < 256
    → address 4 0 no_octets (ipv4 a b c d (b'/' ∷ rest)) ≡ (octets_of a b c d, 3, b'/' ∷ rest)
unfolding ipv4
address-ipv4 a b c d rest ha hb hc hd =
    address_dot 3 0 a no_octets _ ha
    ∙ address_dot 2 1 b (a ∷ replicate 15 0) _ hb
    ∙ address_dot 1 2 c (a ∷ b ∷ replicate 14 0) _ hc
    ∙ address_slash 0 3 d (a ∷ b ∷ c ∷ replicate 13 0) rest hd

mask_at-decimal : (m : ℕ) → m ≤ 32 → (mask_at (b'/' ∷ decimal m [])).0 ≡ m
unfolding mask_at
mask_at-decimal m h = rw (strtoul-decimal m [] (omega arith) tt) refl

parsed :
    (cmd a b c d m : ℕ)
    → a < 256
    → b < 256
    → c < 256
    → d < 256
    → m ≤ 32
    → iplist_parsed cmd (address 4 0 no_octets (ipv4 a b c d (b'/' ∷ decimal m [])))
      ≡ iplist_body cmd m (octets_of a b c d)
unfolding iplist_parsed
parsed cmd a b c d m ha hb hc hd hm =
    ap (iplist_parsed cmd) (address-ipv4 a b c d (decimal m []) ha hb hc hd)
    ∙ ap (λ n. iplist_body cmd n (octets_of a b c d)) (mask_at-decimal m hm)

-- With a word for a verdict and an address of four octets with a mask of at most 32, the command
-- `iplist` sends one request, for exactly that verdict, that mask and those octets.
pub iplist_one-ipv4 :
    (lib : Cgilib) (w : Around) (word : List ℕ) (cmd a b c d m : ℕ)
    → verdict_word lib word ≡ some cmd
    → a < 256
    → b < 256
    → c < 256
    → d < 256
    → m ≤ 32
    → iplist_one lib w word (ipv4 a b c d (b'/' ∷ decimal m [])) ≡ (
        send_request w.secret
          (iplist_body cmd m (octets_of a b c d))
          Protocol.mcp_iplist_resp
          w.network
        >>= told)
unfolding iplist_one
iplist_one-ipv4 lib w word cmd a b c d m e ha hb hc hd hm =
    first e
    ∙ ap (λ (body : List ℕ). send_request w.secret body Protocol.mcp_iplist_resp w.network >>= told)
        (parsed cmd a b c d m ha hb hc hd hm)
  where
    text : List ℕ
    text = ipv4 a b c d (b'/' ∷ decimal m [])

    first :
        verdict_word lib word ≡ some cmd
        → iplist_one lib w word text ≡ (
            send_request w.secret
              (iplist_parsed cmd (address 4 0 no_octets text))
              Protocol.mcp_iplist_resp
              w.network
            >>= told)
    first e = rw (iplist_one, e) refl

-- What the daemon does with a request of such fields.
dispatch-ip_add_sm :
    (g : Setup) (h : Host) (req : Request) (s : Server) (octets : List ℕ) (cmd mask : ℕ)
    → ntohs_at req.buffer 12 ≡ 4
    → ntohs_at req.buffer 10 ≡ cmd
    → ntohs_at req.buffer 14 ≡ mask
    → take 16 (drop 16 req.buffer) ≡ octets
    → dispatch g h req (some Protocol.mcp_iplist) s ≡ (
        ip_add_sm s.ips octets mask cmd >>= λ l. done (
          record s { ips = l },
          replied (record { type = Protocol.mcp_iplist_resp; response = 0; why = no_reason }),
        ))
unfolding dispatch cmd_mcp_iplist
dispatch-ip_add_sm g h req s octets cmd mask e f m o = rw (cmd_mcp_iplist, e, f, m, o) refl

-- A daemon with the same secret, which is not empty, and with rules that are in order, takes such a
-- request for a verdict other than IFT_NONE and a mask of at most 32: the rule for the block of
-- addresses becomes the one that is asked for, every other rule stays, and the answer says that it is
-- done.
pub handle_packet-IsUpdate :
    (g : Setup) (h : Host) (now clock cmd mask a b c d : ℕ) (rest : List ℕ) (s : Server)
    → 0 < length g.secret
    → IsListed s.ips
    → cmd ≢ ift_none
    → cmd < 2 ^ 16
    → mask ≤ 32
    → Returns
        (handle_packet g h
          (arrived now clock (packet_of g.secret (iplist_body cmd mask (octets_of a b c d))) rest)
          s)
        (λ r.
          (IsUpdate s.ips r.0.ips mask (take mask (address_bits (octets_of a b c d))) cmd)
          × (r.1
              ≡ replied
                  (record { type = Protocol.mcp_iplist_resp; response = 0; why = no_reason })))
unfolding iplist_body htonl ntohs_at command_of htons
handle_packet-IsUpdate g h now clock cmd mask a b c d rest s full v sane small short =
    let body = iplist_body cmd mask (octets_of a b c d) in
    let req = arrived now clock (packet_of g.secret body) rest in
    subst
      (λ m. Returns m (λ r.
        (IsUpdate s.ips r.0.ips mask (take mask (address_bits (octets_of a b c d))) cmd)
        × (r.1
            ≡ replied (record { type = Protocol.mcp_iplist_resp; response = 0; why = no_reason }))))
      (sym (
        handle_packet-dispatch g h req s
          (packet_crc-packet_of g.secret body full (omega arith) (omega arith) rest) refl
        ∙ dispatch-ip_add_sm g h req s (octets_of a b c d) cmd mask refl (ntohs-htons cmd small)
            (ntohs-htons mask (omega arith)) refl))
      (Returns-bind (ip_add_sm s.ips (octets_of a b c d) mask cmd) _ _ _
        (ip_add_sm-IsUpdate s.ips (octets_of a b c d) mask cmd v short sane
          (omega (arith, length-address_bits (octets_of a b c d))))
        (λ l u. (u, refl)))

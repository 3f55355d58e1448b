-- ===== src/Client/Judged.antt =====
-- The main loop of server/gld.c on the request that a client sends.
use x_grey.Prelude.{
  abort, ltb, some, ℕ, ◌+◌, ◌^◌, ◌<◌, ◌≡◌, refl, ◌∙◌, true, false, List, [], ◌∷◌, ◌++◌, ◌==◌,
  ==_iff, min, length, length-append, length-take, arith, Run, done, ◌>>=◌, take,
}
use x_grey.Crc.{packet_crc, htonl, ntohl}
use x_grey.Protocol.{version, command_of, Reason, cmd_greylist, cmd_greylist_resp}
use x_grey.Tuple.{Tuple}
use x_grey.Server.{Server, judge, type_greylist}
use x_grey.Server.Packet.{Request, Reply, greylist_sanitize_req, version_of, type_of}
use x_grey.Daemon.{Setup, Host, Answer, dispatch, replied, handle_packet}
use x_grey.Client.{request_body, mta_postfix}
use x_grey.Client.Sent.{triple, arrived, greylist_sanitize_req-triple}
use x_grey.Client.Signing.{packet_of, packet_crc-packet_of}

pub ==_refl : (n : ℕ) → (n == n) ≡ true
==_refl n = (==_iff n n).1 refl

-- The request of a client.
abbrev pub question : List ℕ → List ℕ → List ℕ → List ℕ
question ip from to = request_body mta_postfix cmd_greylist ip from to

-- The daemon once it has counted the request.
abbrev pub asked : Server → Server
asked s = record s { requests = s.requests + 1; req_cucurrent = s.req_cucurrent + 1 }

-- The answer to a verdict.
abbrev pub told : Server × ℕ × Reason → Server × Answer
told (s, v, why) = (s, replied (record { type = cmd_greylist_resp; response = v; why = why }))

-- A packet with a good signature and version goes to the switch on its type.
pub handle_packet-dispatch :
    (g : Setup) (h : Host) (req : Request) (s : Server)
    → packet_crc g.secret req.buffer req.size ≡ done (ntohl req.buffer)
    → ltb version (version_of req) ≡ false
    → handle_packet g h req s ≡ dispatch g h req (command_of (type_of req)) s
unfolding handle_packet
handle_packet-dispatch g h req s e v = rw (e, ==_refl (ntohl req.buffer), v) refl

-- A request that makes a tuple is judged.
dispatch-judge :
    (g : Setup) (h : Host) (req : Request) (t : Tuple) (s : Server)
    → greylist_sanitize_req req ≡ some t
    → dispatch g h req (some cmd_greylist) s
      ≡ (judge g.config req false t (asked s) >>= λ r. done (told r))
unfolding dispatch type_greylist
dispatch-judge g h req t s e = rw (e, type_greylist) (reply (judge g.config req false t (asked s)))
  where
    answered : Server × ℕ × Reason → Run (Server × Reply)
    answered (s', v, why) = done (s', record { type = cmd_greylist_resp; response = v; why = why })

    reply :
        (m : Run (Server × ℕ × Reason))
        → ((m >>= answered) >>= λ (s', r). done (s', replied r)) ≡ (m >>= λ r. done (told r))
    reply (done (s', v, why)) = refl
    reply abort = refl

pub question_size :
    (ip from to : List ℕ) → length ip < 256 → length (question ip from to) + 4 < 2 ^ 64
unfolding request_body
question_size ip from to h = omega (
  arith,
  length-append ip (take (min (length from) 200) from ++ take (min (length to) 200) to),
  length-append (take (min (length from) 200) from) (take (min (length to) 200) to),
  length-take (min (length from) 200) from,
  length-take (min (length to) 200) to,
)

-- With a secret that is not empty, the main loop of a daemon with the same secret judges exactly the
-- address, the sender and the recipient that the client asked about, as far as a tuple holds them,
-- and answers with the verdict and its reason; the request is counted.
pub handle_packet-judge :
    (g : Setup) (h : Host) (now clock a b c d : ℕ) (from to rest : List ℕ) (s : Server)
    → 0 < length g.secret
    → let ip : List ℕ = a ∷ b ∷ c ∷ d ∷ [] in
      let req = arrived now clock (packet_of g.secret (question ip from to)) rest in
      handle_packet g h req s
      ≡ (judge g.config req false (triple now ip from to) (asked s) >>= λ r. done (told r))
unfolding request_body command_of htonl x_grey.Server.Packet.ntohs_at
handle_packet-judge g h now clock a b c d from to rest s full =
    let ip : List ℕ = a ∷ b ∷ c ∷ d ∷ [] in
    let body = question ip from to in
    let req = arrived now clock (packet_of g.secret body) rest in
    handle_packet-dispatch g h req s
      (packet_crc-packet_of g.secret body full (omega arith)
        (question_size ip from to (omega arith)) rest)
      refl
    ∙ dispatch-judge g h req (triple now ip from to) s
        (greylist_sanitize_req-triple now clock a b c d _ _ _ _ from to rest)

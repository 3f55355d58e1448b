-- ===== src/Client/Exchange.antt =====
-- A question of a client, answered by the daemon: `check_greylist` of postfix/pfc.c or of
-- sendmail/smc.c at one end, the main loop of server/gld.c at the other.
use x_grey.Prelude.{
  abort, ℕ, ◌^◌, ◌<◌, ◌≡◌, refl, sym, ap, subst, Bool, false, List, [], ◌∷◌, ◌++◌, length, arith,
  Run, done, Returns, ◌>>=◌, take, drop,
}
use x_grey.Crc.{htonl, ntohl, send_packet}
use x_grey.Protocol.{version, Reason, cmd_greylist_resp}
use x_grey.Tuple.Key.{tuple_key, TupleKey}
use x_grey.Pool.{Config}
use x_grey.Pool.Search.{IsPool}
use x_grey.Pool.Room.{Has}
use x_grey.Server.{Server, judge, type_greylist}
use x_grey.Server.Checks.{HasLists}
use x_grey.Server.Answer.{IsJudged, judge-IsJudged}
use x_grey.Server.Packet.{Request, Reply, greylist_sanitize_req, version_of, type_of}
use x_grey.Daemon.{Setup, Host, Answer, replied, handle_packet}
use x_grey.Client.{
  request_body, reply_body, Network, unanswered, received, read_reply, htons, mta_postfix,
}
use x_grey.Client.Sent.{triple, triple-IsTuple, arrived, ntohs-htons}
use x_grey.Client.Signing.{packet_of, send_packet-packet_of, packet_crc-packet_of}
use x_grey.Client.Judged.{==_refl, question, asked, told, question_size, handle_packet-judge}

-- The reply of a verdict.
abbrev pub verdict_body : List ℕ → ℕ → Reason → List ℕ
verdict_body padding v why =
    reply_body (htons mta_postfix) padding
      (record { type = cmd_greylist_resp; response = v; why = why })

-- A reply that carries a verdict is read as that verdict.
read_reply-verdict_body :
    (wrong : ℕ → Bool) (secret padding rest : List ℕ) (v : ℕ) (why : Reason)
    → 0 < length secret
    → length padding < 256
    → v < 2 ^ 16
    → wrong version ≡ false
    → let packet = packet_of secret (verdict_body padding v why) in
      read_reply wrong secret (received (packet ++ rest) (length packet)) ≡ done v
unfolding read_reply reply_body htonl x_grey.Server.Packet.ntohs_at
read_reply-verdict_body wrong secret padding rest v why full pad small ok =
    let packet = packet_of secret (verdict_body padding v why) in
    rw
      (
        packet_crc-packet_of secret (verdict_body padding v why) full (omega arith) (omega arith)
            rest,
        ==_refl (ntohl (packet ++ rest)),
        ok,
      )
      (ap done (ntohs-htons v small))

-- The reply to a question, as the client receives it, before what is left in its own buffer.
unfoldable pub reply_to : Setup → List ℕ → List ℕ → Request → Answer → Run Network
reply_to g padding rest req (replied r) =
    send_packet g.secret (reply_body (take 2 (drop 6 req.buffer)) padding r) >>= λ packet.
    done (received (packet ++ rest) (length packet))
reply_to g padding rest req _ = done unanswered

-- The end of a question: the state of the daemon, and what the client reads of its answer.
unfoldable pub hear :
    (ℕ → Bool) → Setup → (padding more : List ℕ) → Request → Server × Answer → Run (Server × ℕ)
unfolding reply_to
hear wrong g padding more req (s, answer) = reply_to g padding more req answer >>= λ network.
    read_reply wrong g.secret network >>= λ v. done (s, v)

-- The question of a client to a daemon with the same secret that its packet reaches, and whose
-- reply, of which `padding` is not written, comes back.
unfoldable pub exchange :
    (ℕ → Bool)
    → Setup
    → Host
    → (now clock : ℕ) → (padding rest more : List ℕ) → (ip from to : List ℕ) → Server
    → Run (Server × ℕ)
unfolding hear
exchange wrong g h now clock padding rest more ip from to s =
    send_packet g.secret (question ip from to) >>= λ packet.
    handle_packet g h (arrived now clock packet rest) s
    >>= hear wrong g padding more (arrived now clock packet rest)

-- A run whose value is put in another form, and another run.
Returns-told :
    (m : Run (Server × ℕ × Reason)) (k : Server × Answer → Run (Server × ℕ))
    (P : Server × ℕ × Reason → Type 0) (Q : Server × ℕ → Type 0)
    → Returns m P
    → ((r : Server × ℕ × Reason) → P r → Returns (k (told r)) Q)
    → Returns ((m >>= λ r. done (told r)) >>= k) Q
Returns-told (done r) k P Q h f = f r h
Returns-told abort k P Q h f = h

-- The way back: the daemon's verdict is the client's.
told_back :
    (wrong : ℕ → Bool) (g : Setup) (padding more : List ℕ) (req : Request) (s : Server) (v : ℕ)
    (why : Reason)
    → 0 < length g.secret
    → wrong version ≡ false
    → length padding < 256
    → v < 2 ^ 16
    → take 2 (drop 6 req.buffer) ≡ htons mta_postfix
    → hear wrong g padding more req (told (s, v, why)) ≡ done (s, v)
unfolding hear reply_to reply_body
told_back wrong g padding more req s v why full ok pad small mta =
    rw
      (
        mta,
        send_packet-packet_of g.secret (verdict_body padding v why) full (omega arith)
            (omega arith),
        read_reply-verdict_body wrong g.secret padding more v why full pad small ok,
      )
      refl

-- What a question does: the daemon stays in order, the client reads one of the three verdicts, and
-- if that is to put the mail off, the pool has the triple.
pub record IsServed (c : Config) (key : TupleKey) (r : Server × ℕ) : Type 0 where
  pub in_order : IsPool c r.0.tuples
  pub lists : HasLists r.0
  pub verdict : r.1 < 3
  pub put_off : r.1 ≡ 0 → Has r.0.tuples key

-- With the same secret at both ends, which is not empty, and a client that takes the version of the
-- daemon, a question about an address of four octets returns: if the pool and the lists of the
-- daemon are in order and the pool has room, they stay in order, the verdict that the client reads
-- is to put off, to accept or to reject, and a triple that is put off is then in the pool.
pub exchange-IsServed :
    (wrong : ℕ → Bool) (g : Setup) (h : Host) (now clock a b c d : ℕ)
    (padding rest more from to : List ℕ) (s : Server)
    → 0 < length g.secret
    → wrong version ≡ false
    → length padding < 256
    → IsPool g.config s.tuples
    → HasLists s
    → s.tuples.poolnum < g.config.poolmax
    → let ip : List ℕ = a ∷ b ∷ c ∷ d ∷ [] in
      Returns
        (exchange wrong g h now clock padding rest more ip from to s)
        (IsServed g.config (tuple_key (triple now ip from to)))
unfolding exchange request_body htonl
exchange-IsServed wrong g h now clock a b c d padding rest more from to s full ok pad v l room =
    let ip : List ℕ = a ∷ b ∷ c ∷ d ∷ [] in
    let t = triple now ip from to in
    let req = arrived now clock (packet_of g.secret (question ip from to)) rest in
    rw
      (
        send_packet-packet_of g.secret (question ip from to) full (omega arith)
            (question_size ip from to (omega arith)),
        handle_packet-judge g h now clock a b c d from to rest s full,
      )
      (Returns-told (judge g.config req false t (asked s)) _ (IsJudged g.config (tuple_key t)) _
        (judge-IsJudged g.config t (triple-IsTuple now a b c d from to) req false refl (asked s) v
          (record {
            ips = l.ips;
            to_list = l.to_list;
            tod_list = l.tod_list;
            from_list = l.from_list;
            fromd_list = l.fromd_list;
          })
          room)
        (λ r j.
          subst (λ m. Returns m (IsServed g.config (tuple_key t)))
            (sym (
              told_back wrong g padding more req r.0 r.1 r.2 full ok pad (omega (arith, j.verdict))
                refl))
            (record {
              in_order = j.in_order;
              lists = j.lists;
              verdict = j.verdict;
              put_off = j.put_off;
            })))

-- ===== src/Client.antt =====
-- What the programs that ask the daemon share: `check_greylist` of postfix/pfc.c and of
-- sendmail/smc.c, the packet sent and the packet that comes back.
pub mod Sent
pub mod Signing
pub mod Judged
pub mod Exchange
use x_grey.Prelude.{
  ℕ, zero, suc, ◌+◌, ◌/◌, ◌%◌, Bool, not, List, [], ◌∷◌, ◌++◌, ◌==◌, ltb, if◌then◌else◌, length,
  min, take, Run, done, abort, ◌>>=◌,
}
use x_grey.Crc.{packet_crc, ntohl, send_packet}
use x_grey.Protocol.{
  version, ift_accept, Command, command_code, cmd_greylist, cmd_greylist_resp, Reason, reason_code,
}
use x_grey.Server.Packet.{Reply, ntohs_at}
use x_grey.Text.Number.{strtoul}

-- `MTA_...`
abbrev pub mta_mcp : ℕ
mta_mcp = 0

abbrev pub mta_postfix : ℕ
mta_postfix = 3

-- `htons`, as the bytes in memory.
unfoldable pub htons : ℕ → List ℕ
htons n = (n / 256 % 256) ∷ (n % 256) ∷ []

-- `struct greylist_request` behind its field `crc`: an address of four octets and two texts of at
-- most 200 bytes.
unfoldable pub request_body : ℕ → Command → List ℕ → List ℕ → List ℕ → List ℕ
unfolding htons command_code
request_body mta cmd ip from to =
    let sfrom : ℕ = min (length from) 200 in
    let sto : ℕ = min (length to) 200 in
    htons version
    ++ (htons mta
        ++ (htons (command_code cmd)
            ++ (htons 4
                ++ (htons sfrom ++ (htons sto ++ (ip ++ (take sfrom from ++ take sto to)))))))

-- What comes of a packet: `sendto` fails, `recvfrom` fails (at the alarm, too), or `size` bytes come
-- in at the start of the buffer.
pub data Network : Type 0 where
  unsent unanswered : Network
  received : (buffer : List ℕ) (size : ℕ) → Network

-- The end of `check_greylist`: the verdict read from the reply. `wrong` is the test of the version.
unfoldable pub read_reply : (ℕ → Bool) → List ℕ → Network → Run ℕ
unfolding packet_crc ntohl ntohs_at
read_reply wrong secret unsent = done ift_accept
read_reply wrong secret unanswered = done ift_accept
read_reply wrong secret (received buffer size) = packet_crc secret buffer size >>= λ crc.
    if not (crc == ntohl buffer)
    then done ift_accept
    else if wrong (ntohs_at buffer 4)
    then done ift_accept
    else if not (ntohs_at buffer 6 == mta_postfix)
    then done ift_accept
    else if not (ntohs_at buffer 8 == command_code cmd_greylist_resp)
    then done ift_accept
    else done (ntohs_at buffer 10)

-- `check_greylist` once the address is packed; `network` is what comes of the packet sent.
unfoldable pub ask : (ℕ → Bool) → List ℕ → List ℕ → List ℕ → List ℕ → (List ℕ → Network) → Run ℕ
unfolding send_packet request_body read_reply
ask wrong secret ip from to network =
    send_packet secret (request_body mta_postfix cmd_greylist ip from to) >>= λ packet.
    read_reply wrong secret (network packet)

-- `send_reply` of server/gld.c behind the field `crc`: the structure's size is a multiple of four,
-- so that two bytes of padding follow its last field. `mta` is copied from the request.
unfoldable pub reply_body : List ℕ → List ℕ → Reply → List ℕ
unfolding htons command_code reason_code
reply_body mta padding r =
    htons version
    ++ (mta
        ++ (htons (command_code r.type)
            ++ (htons r.response ++ (htons (reason_code r.why) ++ padding))))

-- ===== src/Control.antt =====
-- control/gld-mcp.c: the program that asks the daemon for its counters and changes its lists. A
-- command is the fields that `split` makes of a line.
pub mod Replies
pub mod Words
pub mod Files
pub mod Rules
use x_grey.Prelude.{
  ℕ, zero, suc, ◌+◌, ◌-◌, ◌*◌, ◌%◌, ◌^◌, Option, none, some, Bool, true, false, ◌||◌, not, List, [],
  ◌∷◌, ◌++◌, ◌==◌, ltb, if◌then◌else◌, length, min, take, drop, set, replicate, Run, done, ◌>>=◌,
}
use x_grey.Crc.{packet_crc, ntohl, send_packet}
use x_grey.Protocol
use x_grey.Protocol.{
  version, Command, command_code, command_of, Reason, reason_code, ift_accept, ift_reject,
}
use x_grey.Names.{CharsInt, ci_map_int, c_ift}
use x_grey.Server.Packet.{ntohs_at, data_at}
use x_grey.Text.Number.{strtoul}
use x_grey.Text.Address.{parse_ip}
use x_grey.Client.{Network, unsent, unanswered, received, htons, mta_mcp, request_body}
use x_grey.Postfix.{same_text, memchr}
use x_grey.Daemon.{Stats, ShowConfig}
use x_grey.Control.Replies.{read_stats, read_config}

-- What the program uses of cgilib6.
pub record Cgilib : Type 0 where
  pub up_string : List ℕ → List ℕ
  pub empty_string : List ℕ → Bool
  pub trim_space : List ℕ → List ℕ

-- What a command prints.
pub data Shown : Type 0 where
  nothing bad_response bad_command not_domain cannot_connect cannot_open syntax_error : Shown
  stats : Stats → Shown
  config : ShowConfig → Shown
  not_added : (why response : ℕ) → Shown
  -- The pager on the connection, the warranty, the licence, the list of commands.
  report warranty redistribute commands : Shown

-- `send_request`: `body` is the request behind the field `crc`; `none` is ERR_ERR, and what comes
-- back otherwise is the buffer.
unfoldable pub send_request : List ℕ → List ℕ → Command → (List ℕ → Network) → Run (Option (List ℕ))
unfolding send_packet packet_crc ntohl ntohs_at command_code
send_request secret body expected network = send_packet secret body >>= λ packet.
    elim (network packet) [
      | unsent ↦ done none
      | unanswered ↦ done none
      | received buffer size ↦ packet_crc secret buffer size >>= λ crc.
          if not (crc == ntohl buffer)
          then done none
          else if ltb version (ntohs_at buffer 4)
          then done none
          else if not (ntohs_at buffer 6 == mta_mcp)
          then done none
          else if not (ntohs_at buffer 8 == command_code expected)
          then done none
          else done (some buffer)
    ]

-- `struct glmcp_request` behind its field `crc`, with its two bytes of padding.
unfoldable pub mcp_body : Command → List ℕ → List ℕ
unfolding htons command_code
mcp_body cmd padding = htons version ++ (htons mta_mcp ++ (htons (command_code cmd) ++ padding))

-- The system around a command: the secret, what comes of a packet, whether the daemon can be
-- connected to, and the bytes of the stack that go out as padding.
pub record Around : Type 0 where
  pub secret : List ℕ
  pub network : List ℕ → Network
  pub connects : Bool
  pub padding : List ℕ

unfoldable pub show_stats : Around → Run Shown
unfolding send_request mcp_body read_stats
show_stats w =
    send_request w.secret (mcp_body Protocol.mcp_show_stats w.padding) Protocol.mcp_show_stats_resp
      w.network
    >>= λ r. done (elim r [ none ↦ bad_response | some b ↦ stats (read_stats b) ])

unfoldable pub show_config : Around → Run Shown
unfolding send_request mcp_body read_config
show_config w =
    send_request w.secret (mcp_body Protocol.mcp_show_config w.padding)
      Protocol.mcp_show_config_resp w.network
    >>= λ r. done (elim r [ none ↦ bad_response | some b ↦ config (read_config b) ])

unfoldable pub show_report : Around → Command → Command → Run Shown
unfolding send_request mcp_body
show_report w req resp = send_request w.secret (mcp_body req w.padding) resp w.network >>= λ r.
    done (elim r [ none ↦ bad_response | some b ↦ if w.connects then report else cannot_connect ])

-- The end of a command that changes a list.
abbrev pub told : Option (List ℕ) → Run Shown
told none = done bad_response
told (some b) = done nothing

-- `struct glmcp_request_iplist` behind its field `crc`.
unfoldable pub iplist_body : (cmd mask : ℕ) (octets : List ℕ) → List ℕ
unfolding htons command_code
iplist_body cmd mask octets =
    htons version
    ++ (htons mta_mcp
        ++ (htons (command_code Protocol.mcp_iplist)
            ++ (htons cmd ++ (htons 4 ++ (htons mask ++ octets)))))

-- The loop on the octets of an address, with `n` left from `octet` on: the array, the value of
-- `octet` behind the loop, and the text at `p`.
unfoldable pub address : (n octet : ℕ) → List ℕ → List ℕ → List ℕ × ℕ × List ℕ
unfolding strtoul
address zero octet array p = (array, octet, p)
address (suc n) octet array p =
    let (v, rest) = strtoul p in
    let read : List ℕ = set array octet (v % 256) in
    elim rest [
      | [] ↦ (read, octet, [])
      | b ∷ bs ↦
          let more = address n (suc octet) read bs in
          if b == b'.' then more else (read, octet, b ∷ bs)
    ]

abbrev pub no_octets : List ℕ
no_octets = replicate 16 0

-- The mask behind a slash, and the text behind it; the default is 32.
unfoldable pub mask_at : List ℕ → ℕ × List ℕ
unfolding strtoul
mask_at [] = (32, [])
mask_at (b ∷ bs) = let m = strtoul bs in if b == b'/' then m else (32, b ∷ bs)

-- `ci_map_int`, kept in a field of 16 bits; `none` is -1 there.
unfoldable pub verdict_word : Cgilib → List ℕ → Option ℕ
unfolding ci_map_int
verdict_word lib w =
    let cmd : ℕ = ci_map_int (lib.up_string w) c_ift % 2 ^ 16 in
    if cmd == 2 ^ 16 - 1 then none else some cmd

-- What `iplist` sends for an address: its octets and its mask.
unfoldable pub iplist_parsed : ℕ → List ℕ × ℕ × List ℕ → List ℕ
iplist_parsed cmd (octets, n, p) = iplist_body cmd (mask_at p).0 octets

-- `iplist` with a verdict and an address.
unfoldable pub iplist_one : Cgilib → Around → List ℕ → List ℕ → Run Shown
iplist_one lib w verdict text = elim (verdict_word lib verdict) [
  | none ↦ done bad_command
  | some cmd ↦
      send_request w.secret (iplist_parsed cmd (address 4 0 no_octets text))
        Protocol.mcp_iplist_resp w.network
      >>= told
]

-- `struct glmcp_request_tofrom` behind its field `crc`. The field `size` and the byte behind the NUL
-- are never written.
unfoldable pub tofrom_body : Command → (cmd : ℕ) → (size text garbage : List ℕ) → List ℕ
unfolding htons command_code
tofrom_body req cmd size text garbage =
    htons version
    ++ (htons mta_mcp
        ++ (htons (command_code req) ++ (htons cmd ++ (size ++ (text ++ (0 ∷ garbage))))))

abbrev has_at : List ℕ → Bool
has_at text = elim (memchr b'@' text) [ none ↦ false | some i ↦ true ]

-- `tofrom`; the flag says that the list is one of domains.
unfoldable pub tofrom : Cgilib → Around → List (List ℕ) → Command → Command → Bool → Run Shown
unfolding verdict_word tofrom_body send_request memchr
tofrom lib w (word ∷ verdict ∷ text ∷ []) req resp domain =
    let addr : List ℕ = take (min (length text) 200) text in
    if (if domain then has_at text else false)
    then done not_domain
    else elim (verdict_word lib (lib.up_string verdict)) [
      | none ↦ done nothing
      | some cmd ↦
          send_request w.secret (tofrom_body req cmd w.padding addr (take 1 w.padding)) resp
            w.network
          >>= told
    ]
tofrom lib w _ req resp domain = done nothing

-- ===== src/Server/Packet.antt =====
-- server/gld.c: the packet in the receive buffer, and `greylist_sanitize_req`, which makes a tuple
-- of it. The buffer is the 1500 bytes of `union greylist_all_packets`; what a packet does not fill
-- is left from the packets before it.
use x_grey.Prelude.{
  ℕ, ◌+◌, ◌-◌, ◌*◌, Option, none, some, false, ◌&&◌, not, List, ◌++◌, ◌==◌, ltb, if◌then◌else◌, min,
  get_elem?, take, drop, replicate,
}
use x_grey.Protocol.{bad_data, err_code, Reason, no_reason, Command, cmd_none_resp}
use x_grey.Tuple.{Tuple, ip_size, text_size}

-- `struct request`: `size` bytes came in, at the time `now`; `clock` is what `time` returns when
-- the answer to this request asks it again.
pub record Request : Type 0 where
  pub now : ℕ
  pub clock : ℕ
  pub buffer : List ℕ
  pub size : ℕ

-- The fields `type`, `response` and `why` of `struct greylist_response`.
pub record Reply : Type 0 where
  pub type : Command
  pub response : ℕ
  pub why : Reason

abbrev pub byte_at : List ℕ → ℕ → ℕ
byte_at xs i = elim (get_elem? xs i) [ none ↦ 0 | some b ↦ b ]

-- `ntohs` of the field at an offset.
unfoldable pub ntohs_at : List ℕ → ℕ → ℕ
ntohs_at xs i = byte_at xs i * 256 + byte_at xs (i + 1)

-- The offsets of the fields of `struct greylist_request`.
abbrev pub version_of : Request → ℕ
version_of r = ntohs_at r.buffer 4

abbrev pub type_of : Request → ℕ
type_of r = ntohs_at r.buffer 8

abbrev pub ipsize_of : Request → ℕ
ipsize_of r = ntohs_at r.buffer 10

abbrev pub fromsize_of : Request → ℕ
fromsize_of r = ntohs_at r.buffer 12

abbrev pub tosize_of : Request → ℕ
tosize_of r = ntohs_at r.buffer 14

-- `sizeof(struct greylist_request) - 4`: the offset of `data`.
abbrev pub data_at : ℕ
data_at = 16

-- `memcpy` of `n` bytes at an offset into an array of zeros.
unfoldable pub copy_in : List ℕ → ℕ → ℕ → ℕ → List ℕ
copy_in buffer off n room = take n (drop off buffer) ++ replicate (room - n) 0

-- `none` is ERR_ERR, after the reply `refusal`.
unfoldable pub greylist_sanitize_req : Request → Option Tuple
unfolding ntohs_at copy_in
greylist_sanitize_req r =
    let ips = ipsize_of r in
    let froms = fromsize_of r in
    let tos = tosize_of r in
    if not (ips == 4) && not (ips == 16)
    then none
    else if ltb r.size (ips + froms + tos + data_at)
    then none
    else let fs : ℕ = min (text_size - 1) froms in
      let ts : ℕ = min (text_size - 1) tos in
      some (record {
        ctime = r.now;
        atime = r.now;
        fromsize = fs;
        tosize = ts;
        pad = 0xDECAFBAD;
        f = record {
          whitelist = false;
          remove = false;
          trunc_from = ltb fs froms;
          trunc_to = ltb ts tos;
          ipv6 = ips == 16;
        };
        ip = copy_in r.buffer data_at ips ip_size;
        from = copy_in r.buffer (data_at + ips) fs text_size;
        to = copy_in r.buffer (data_at + ips + froms) ts text_size;
      })

unfoldable pub refusal : Reply
unfolding err_code
refusal = record { type = cmd_none_resp; response = err_code bad_data; why = no_reason }

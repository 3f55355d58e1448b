-- ===== src/Control/Words.antt =====
-- control/gld-mcp.c: the commands `tuple` and `show`.
use x_grey.Prelude.{
  ℕ, ◌+◌, Option, none, some, ◌||◌, not, List, [], ◌∷◌, ◌==◌, if◌then◌else◌, take, Run, done, ◌>>=◌,
}
use x_grey.Protocol
use x_grey.Protocol.{
  version, Command, command_code, command_of, Reason, reason_code, ift_accept, ift_reject,
}
use x_grey.Names.{CharsInt, ci_map_int}
use x_grey.Server.Packet.{ntohs_at}
use x_grey.Text.Address.{parse_ip}
use x_grey.Client.{mta_mcp, request_body}
use x_grey.Postfix.{same_text}
use x_grey.Control.{
  Cgilib, Around, Shown, nothing, bad_response, not_added, warranty, redistribute, send_request,
  show_stats, show_config, show_report,
}

-- `m_tuple_cmd`
unfoldable pub m_tuple_cmd : List CharsInt
unfolding command_code
m_tuple_cmd =
    record {
      name = b'G' ∷ b'R' ∷ b'A' ∷ b'Y' ∷ b'L' ∷ b'I' ∷ b'S' ∷ b'T' ∷ [];
      value = command_code Protocol.cmd_greylist;
    }
    ∷ record {
      name = b'G' ∷ b'R' ∷ b'E' ∷ b'Y' ∷ b'L' ∷ b'I' ∷ b'S' ∷ b'T' ∷ [];
      value = command_code Protocol.cmd_greylist;
    }
    ∷ record {
      name = b'W' ∷ b'H' ∷ b'I' ∷ b'T' ∷ b'E' ∷ b'L' ∷ b'I' ∷ b'S' ∷ b'T' ∷ [];
      value = command_code Protocol.cmd_whitelist;
    }
    ∷ record {
      name = b'R' ∷ b'E' ∷ b'M' ∷ b'O' ∷ b'V' ∷ b'E' ∷ [];
      value = command_code Protocol.cmd_tuple_remove;
    }
    ∷ []

-- A text that is `-` is sent as the empty one.
abbrev pub dash : List ℕ → List ℕ
dash text = if same_text text (b'-' ∷ []) then [] else text

-- What `tuple` prints of the reply in a buffer.
unfoldable pub show_reason : List ℕ → List Shown
unfolding ntohs_at reason_code
show_reason b =
    let why : ℕ = ntohs_at b 12 in
    if (why == reason_code Reason.greylist) || (why == reason_code Reason.whitelist)
    then []
    else not_added why (ntohs_at b 10) ∷ []

-- The command word of `tuple` and the reply to it, which is the one that follows.
unfoldable pub tuple_command : ℕ → Option (Command × Command)
unfolding command_of
tuple_command n = elim (command_of n) [
  | none ↦ none
  | some c ↦ elim (command_of (n + 1)) [ none ↦ none | some r ↦ some (c, r) ]
]

-- `tuple`; `data_before` and `reply_before` are what the address in the packet and the buffer of the reply hold
-- before they are written.
unfoldable pub tuple :
    Cgilib → Around → (data_before reply_before : List ℕ) → List (List ℕ) → Run (List Shown)
unfolding ci_map_int m_tuple_cmd tuple_command parse_ip request_body send_request show_reason
    same_text
tuple lib w data_before reply_before (word ∷ verb ∷ ip ∷ from ∷ to ∷ []) =
    elim (tuple_command (ci_map_int (lib.up_string verb) m_tuple_cmd)) [
      | none ↦ done []
      | some (cmd, resp) ↦ elim (parse_ip (take 4 data_before) ip) [
        | none ↦ done []
        | some (octets, mask) ↦
            if not (mask == 32)
            then done []
            else (send_request w.secret (request_body mta_mcp cmd octets (dash from) (dash to)) resp
                  w.network
                >>= λ r. done (elim r [
                  | none ↦ bad_response ∷ show_reason reply_before
                  | some b ↦ show_reason b
                ]))
      ]
    ]
tuple lib w data_before reply_before _ = done []

abbrev word_all : List ℕ
word_all = b'a' ∷ b'l' ∷ b'l' ∷ []

-- `show`
unfoldable pub show : Around → List (List ℕ) → Run Shown
unfolding show_stats show_config show_report same_text
show w [] = done nothing
show w (word ∷ []) = done nothing
show w (word ∷ what ∷ more) =
    let tuples : Run Shown = elim more [
      | [] ↦ show_report w Protocol.mcp_show_tuple Protocol.mcp_show_tuple_resp
      | which ∷ rest ↦
          if same_text which word_all
          then show_report w Protocol.mcp_show_tuple_all Protocol.mcp_show_tuple_all_resp
          else if same_text which
              (b'w' ∷ b'h' ∷ b'i' ∷ b't' ∷ b'e' ∷ b'l' ∷ b'i' ∷ b's' ∷ b't' ∷ [])
          then show_report w Protocol.mcp_show_whitelist Protocol.mcp_show_whitelist_resp
          else done nothing
    ] in
    if same_text what (b'w' ∷ [])
    then done warranty
    else if same_text what (b'c' ∷ [])
    then done redistribute
    else if same_text what (b's' ∷ b't' ∷ b'a' ∷ b't' ∷ b's' ∷ [])
    then show_stats w
    else if same_text what (b'c' ∷ b'o' ∷ b'n' ∷ b'f' ∷ b'i' ∷ b'g' ∷ [])
    then show_config w
    else if same_text what (b'i' ∷ b'p' ∷ b'l' ∷ b'i' ∷ b's' ∷ b't' ∷ [])
    then show_report w Protocol.mcp_show_iplist Protocol.mcp_show_iplist_resp
    else if same_text what (b't' ∷ b'u' ∷ b'p' ∷ b'l' ∷ b'e' ∷ b's' ∷ [])
    then tuples
    else if same_text what (b't' ∷ b'o' ∷ [])
    then show_report w Protocol.mcp_show_to Protocol.mcp_show_to_resp
    else if same_text what (b't' ∷ b'o' ∷ b'-' ∷ b'd' ∷ b'o' ∷ b'm' ∷ b'a' ∷ b'i' ∷ b'n' ∷ [])
    then show_report w Protocol.mcp_show_to_domain Protocol.mcp_show_to_domain_resp
    else if same_text what (b'f' ∷ b'r' ∷ b'o' ∷ b'm' ∷ [])
    then show_report w Protocol.mcp_show_from Protocol.mcp_show_from_resp
    else if same_text what
        (b'f' ∷ b'r' ∷ b'o' ∷ b'm' ∷ b'-' ∷ b'd' ∷ b'o' ∷ b'm' ∷ b'a' ∷ b'i' ∷ b'n' ∷ [])
    then show_report w Protocol.mcp_show_from_domain Protocol.mcp_show_from_domain_resp
    else done nothing

-- ===== src/Tests/Controls.antt =====
-- The control program, each command at one input, and the daemon that has just started.
use x_grey.Prelude.{ℕ, ◌≡◌, refl, true, false, List, [], ◌∷◌, ◌++◌, arith, Returns, take, ◌>>=◌}
use x_grey.Protocol.{mcp_iplist_resp, no_reason}
use x_grey.Text.{is_empty}
use x_grey.Text.Number.{decimal}
use x_grey.Text.Address.{ipv4}
use x_grey.IpTree.{address_bits}
use x_grey.IpTree.Update.{IsUpdate}
use x_grey.Daemon.{show_stats, show_config, handle_packet, replied}
use x_grey.Client.{unanswered}
use x_grey.Client.Sent.{arrived}
use x_grey.Client.Signing.{packet_of}
use x_grey.Control.{Cgilib, Around, send_request, iplist_one, iplist_body, told}
use x_grey.Control.Rules.{octets_of, iplist_one-ipv4, handle_packet-IsUpdate}
use x_grey.Control.Replies.{stats_body, config_body, read_stats, read_config}
use x_grey.Control.Replies.Numbers.{read_stats-stats_body}
use x_grey.Tests.Daemons.{daemon, daemon-HasLists, setup, three_texts}

read_stats-stats_body_example :
    (read_stats
        ((1 ∷ 2 ∷ 3 ∷ 4 ∷ stats_body (0 ∷ 0 ∷ []) (show_stats setup three_texts daemon)) ++ [])
      ≡ show_stats setup three_texts daemon)
    × (read_config ((1 ∷ 2 ∷ 3 ∷ 4 ∷ config_body (0 ∷ 0 ∷ []) (show_config setup)) ++ [])
        ≡ show_config setup)
read_stats-stats_body_example = read_stats-stats_body setup three_texts daemon 1 2 3 4 0 0 []

-- Words in capitals and lines without spaces around them.
abbrev plain : Cgilib
plain = record { up_string = λ s. s; empty_string = λ s. is_empty s; trim_space = λ s. s }

abbrev alone : Around
alone = record {
  secret = b's' ∷ [];
  network = λ p. unanswered;
  connects = false;
  padding = 0 ∷ 0 ∷ [];
}

abbrev word_accept : List ℕ
word_accept = b'A' ∷ b'C' ∷ b'C' ∷ b'E' ∷ b'P' ∷ b'T' ∷ []

iplist_one-ipv4_example :
    iplist_one plain alone word_accept (ipv4 10 0 0 0 (b'/' ∷ decimal 8 [])) ≡ (
      send_request
        (b's' ∷ [])
        (iplist_body 1 8 (octets_of 10 0 0 0))
        mcp_iplist_resp
        (λ p. unanswered)
      >>= told)
unfolding x_grey.Control.verdict_word x_grey.Names.ci_map_int
iplist_one-ipv4_example =
    iplist_one-ipv4 plain alone word_accept 1 10 0 0 0 8 refl (omega arith) (omega arith)
      (omega arith) (omega arith) (omega arith)

handle_packet-IsUpdate_example :
    Returns
      (handle_packet setup
        (record { has_socket = true; has_process = true })
        (arrived 100 100 (packet_of (b's' ∷ []) (iplist_body 1 8 (octets_of 10 0 0 0))) [])
        daemon)
      (λ r.
        (IsUpdate daemon.ips r.0.ips 8 (take 8 (address_bits (octets_of 10 0 0 0))) 1)
        × (r.1 ≡ replied (record { type = mcp_iplist_resp; response = 0; why = no_reason })))
handle_packet-IsUpdate_example =
    handle_packet-IsUpdate setup (record { has_socket = true; has_process = true }) 100 100 1 8 10 0
      0 0 [] daemon (omega arith) daemon-HasLists.ips.listed (λ e. omega (arith, e)) (omega arith)
      (omega arith)

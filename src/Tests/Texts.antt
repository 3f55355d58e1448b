-- ===== src/Tests/Texts.antt =====
-- The tables, the checksum, the reader of the lists and the splitting of lines, on short inputs.
use x_grey.Prelude.{ℕ, ◌≡◌, ◌≢◌, refl, true, false, List, [], ◌∷◌, arith, done, abort, Returns}
use x_grey.Crc.{table_at, crc32, init_crc32, send_packet}
use x_grey.Crc.Table.{divide_by, table_at-divide_by}
use x_grey.Crc.Signed.{IsSigned, send_packet-IsSigned}
use x_grey.Names.{ci_map_int, ci_map_chars, c_ift, c_reason}
use x_grey.Names.Round.{ci_map_int-ci_map_chars}
use x_grey.Protocol.{Reason, reason_code}
use x_grey.Text.Split.{solid}
use x_grey.EmailDomain.Reader.{Strings, is_skipped, starts_comment, tofrom_read_stream}
use x_grey.EmailDomain.Update.{IsSorted}
use x_grey.EmailDomain.Reading.{IsRead, tofrom_read_stream-IsSorted}
use x_grey.EmailDomain.Comment.{tofrom_read_stream_comment}
use x_grey.Tests.Base.{no_list}
use x_grey.IpTree.{IpList, node, null}
use x_grey.IpTree.Rules.{rule, count_rules}
use x_grey.IpTree.Update.{IsListed}
use x_grey.Text.{is_space}

table_at-divide_by_example : table_at 77 ≡ divide_by 8 77
table_at-divide_by_example = table_at-divide_by 77 (omega arith)

-- The check value of this checksum, which is complemented at the end by others.
check_value :
    crc32 init_crc32 (b'1' ∷ b'2' ∷ b'3' ∷ b'4' ∷ b'5' ∷ b'6' ∷ b'7' ∷ b'8' ∷ b'9' ∷ []) 9
    ≡ done 0x340bc6d9
unfolding crc32
check_value = refl

send_packet-IsSigned_example :
    Returns (send_packet (b's' ∷ []) (1 ∷ 1 ∷ [])) (IsSigned (b's' ∷ []) (1 ∷ 1 ∷ []))
send_packet-IsSigned_example =
    send_packet-IsSigned (b's' ∷ []) (1 ∷ 1 ∷ []) (omega arith) (omega arith) (omega arith)

ci_map_int-ci_map_chars_example :
    (ci_map_int (ci_map_chars 2 c_ift) c_ift ≡ 2)
    × (ci_map_int (ci_map_chars (reason_code Reason.to_domain) c_reason) c_reason
        ≡ reason_code Reason.to_domain)
ci_map_int-ci_map_chars_example = ci_map_int-ci_map_chars 2 Reason.to_domain (omega arith)

abbrev line : List ℕ
line = b'0' ∷ 32 ∷ b'A' ∷ 32 ∷ 9 ∷ b'x' ∷ 10 ∷ []

line-solid : solid line ≢ []
unfolding solid is_space
line-solid e = ground (arith, e)

-- Functions that do on these lines what the library's do.
abbrev strings : Strings
strings = record { empty_string = λ t. false; trim_space = λ t. t; strtoul = λ t. 0 }

tofrom_read_stream_comment_example :
    tofrom_read_stream strings true false ((b'#' ∷ 10 ∷ []) ∷ line ∷ []) no_list ≡ abort
unfolding is_skipped
tofrom_read_stream_comment_example =
    tofrom_read_stream_comment strings true (b'#' ∷ 10 ∷ []) (line ∷ []) no_list refl

abbrev pub two_rules : IpList
two_rules = record { tree = node 3 0 (node 4 1 null null) null; ipcnt = 2 }

pub two_rules-IsListed : IsListed two_rules
unfolding rule count_rules
two_rules-IsListed = record {
  answering = record { default = λ e. omega (arith, e); levels = ((tt, tt), tt) };
  counted = refl;
}

no_list-IsSorted : IsSorted no_list
no_list-IsSorted = record { ascending = tt; roomy = omega arith }

line-IsRead : IsRead strings true line
unfolding starts_comment
line-IsRead = record { not_empty = refl; not_comment = refl; has_field = line-solid }

tofrom_read_stream-IsSorted_example :
    Returns (tofrom_read_stream strings true false (line ∷ line ∷ []) no_list) IsSorted
tofrom_read_stream-IsSorted_example =
    tofrom_read_stream-IsSorted strings true false (line ∷ line ∷ []) no_list
      (line-IsRead, (line-IsRead, tt)) no_list-IsSorted

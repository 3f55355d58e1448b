-- ===== src/IpTree/Dump.antt =====
-- server/iplist.c: the file of the rules, as `iplist_dump_stream` writes it, and the report of
-- `ip_print`.
use x_grey.Prelude.{ℕ, true, List, [], ◌∷◌, ◌++◌, map, take, replicate}
use x_grey.Names.{ci_map_chars, c_ift}
use x_grey.Text.Number.{decimal}
use x_grey.Text.Address.{ipv4}
use x_grey.EmailDomain.Dump.{at_right}
use x_grey.IpTree.{Tree}
use x_grey.IpTree.Packing.{packed}
use x_grey.IpTree.Table.{IpBlock, ip_table}

-- `ipv4` on an array of four octets.
unfoldable pub ipv4_of : List ℕ → List ℕ → List ℕ
unfolding ipv4
ipv4_of (a ∷ b ∷ c ∷ d ∷ []) rest = ipv4 a b c d rest
ipv4_of _ rest = rest

-- `"%18.18s %s\n"`, the address with its mask and the verdict.
unfoldable pub rule_line : IpBlock → List ℕ
unfolding ipv4_of packed at_right ci_map_chars
rule_line e =
    at_right 18 (take 18 (ipv4_of (packed 4 e.addr) (b'/' ∷ decimal e.smask [])))
    ++ (b' ' ∷ (ci_map_chars e.cmd c_ift ++ (10 ∷ [])))

unfoldable pub iplist_dump_stream : Tree → List (List ℕ)
unfolding rule_line ip_table
iplist_dump_stream t = map rule_line (ip_table t)

-- `"%10lu %8.8s %15.15s %15.15s\n"`; the mask has a bit for each bit of the prefix.
unfoldable pub print_line : IpBlock → List ℕ
unfolding ipv4_of packed at_right ci_map_chars
print_line e =
    at_right 10 (decimal e.count [])
    ++ (b' '
        ∷ (at_right 8 (take 8 (ci_map_chars e.cmd c_ift))
            ++ (b' '
                ∷ (at_right 15 (take 15 (ipv4_of (packed 4 e.addr) []))
                    ++ (b' '
                        ∷ (at_right 15 (take 15 (ipv4_of (packed 4 (replicate e.smask true)) []))
                            ++ (10 ∷ [])))))))

unfoldable pub ip_print : Tree → List (List ℕ)
unfolding print_line ip_table
ip_print t = map print_line (ip_table t)

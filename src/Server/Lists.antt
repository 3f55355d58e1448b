-- ===== src/Server/Lists.antt =====
-- server/emaildomain.c and `cmd_mcp_tofrom` of server/gld.c on the four lists of the daemon.
use x_grey.Prelude.{ℕ, none, some, List, drop, Run, done, abort, ◌>>=◌}
use x_grey.Bisearch.{Item}
use x_grey.Protocol.{Command, mcp_to, mcp_to_domain, mcp_from, mcp_from_domain, no_reason}
use x_grey.EmailDomain.{Entry, edomain_search, edomain_add, edomain_remove, update_list}
use x_grey.EmailDomain.Reader.{is_default}
use x_grey.Text.{cstring}
use x_grey.Server.{Server}
use x_grey.Server.Packet.{Request, Reply, ntohs_at}

abbrev pub edomain_search_to : Server → List ℕ → Run Item
edomain_search_to s key = edomain_search key s.to_list

abbrev pub edomain_search_tod : Server → List ℕ → Run Item
edomain_search_tod s key = edomain_search key s.tod_list

abbrev pub edomain_search_from : Server → List ℕ → Run Item
edomain_search_from s key = edomain_search key s.from_list

abbrev pub edomain_search_fromd : Server → List ℕ → Run Item
edomain_search_fromd s key = edomain_search key s.fromd_list

unfoldable pub edomain_add_to : Server → Entry → ℕ → Run Server
unfolding edomain_add
edomain_add_to s rec index =
    edomain_add s.to_list rec index >>= λ l. done (record s { to_list = l })

unfoldable pub edomain_add_tod : Server → Entry → ℕ → Run Server
unfolding edomain_add
edomain_add_tod s rec index =
    edomain_add s.tod_list rec index >>= λ l. done (record s { tod_list = l })

unfoldable pub edomain_add_from : Server → Entry → ℕ → Run Server
unfolding edomain_add
edomain_add_from s rec index =
    edomain_add s.from_list rec index >>= λ l. done (record s { from_list = l })

unfoldable pub edomain_add_fromd : Server → Entry → ℕ → Run Server
unfolding edomain_add
edomain_add_fromd s rec index =
    edomain_add s.fromd_list rec index >>= λ l. done (record s { fromd_list = l })

unfoldable pub edomain_remove_to : Server → ℕ → Run Server
unfolding edomain_remove
edomain_remove_to s index = edomain_remove s.to_list index >>= λ l. done (record s { to_list = l })

unfoldable pub edomain_remove_tod : Server → ℕ → Run Server
unfolding edomain_remove
edomain_remove_tod s index =
    edomain_remove s.tod_list index >>= λ l. done (record s { tod_list = l })

unfoldable pub edomain_remove_from : Server → ℕ → Run Server
unfolding edomain_remove
edomain_remove_from s index =
    edomain_remove s.from_list index >>= λ l. done (record s { from_list = l })

unfoldable pub edomain_remove_fromd : Server → ℕ → Run Server
unfolding edomain_remove
edomain_remove_fromd s index =
    edomain_remove s.fromd_list index >>= λ l. done (record s { fromd_list = l })

-- The entry that a packet of `struct glmcp_request_tofrom` asks for; its text starts at offset 14.
unfoldable pub tofrom_key : Request → List ℕ → Entry
unfolding ntohs_at
tofrom_key req text = record {
  text = text;
  tsize = ntohs_at req.buffer 12;
  count = 0;
  cmd = ntohs_at req.buffer 10;
}

-- A text without a NUL is read behind the buffer.
unfoldable pub tofrom_entry : Request → Run Entry
unfolding cstring tofrom_key
tofrom_entry req = elim (cstring (drop 14 req.buffer)) [
  | none ↦ abort
  | some text ↦ done (tofrom_key req text)
]

-- The switch on the command; any other one ends in `assert(0)`.
unfoldable pub update_named : Command → Entry → Server → Run Server
unfolding update_list is_default
update_named mcp_to key s =
    update_list s.to_list (is_default key.text) key >>= λ l. done (record s { to_list = l })
update_named mcp_to_domain key s =
    update_list s.tod_list (is_default key.text) key >>= λ l. done (record s { tod_list = l })
update_named mcp_from key s =
    update_list s.from_list (is_default key.text) key >>= λ l. done (record s { from_list = l })
update_named mcp_from_domain key s =
    update_list s.fromd_list (is_default key.text) key >>= λ l. done (record s { fromd_list = l })
update_named _ key s = abort

unfoldable pub cmd_mcp_tofrom : Request → Command → Command → Server → Run (Server × Reply)
unfolding tofrom_entry update_named
cmd_mcp_tofrom req cmd resp s = tofrom_entry req >>= λ key. update_named cmd key s >>= λ s'.
    done (s', record { type = resp; response = 0; why = no_reason })

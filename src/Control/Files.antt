-- ===== src/Control/Files.antt =====
-- control/gld-mcp.c: the commands that read a file of addresses, line by line, and the switch on the
-- first word of a command.
use x_grey.Prelude.{
  ℕ, ◌+◌, ◌*◌, Option, none, some, Bool, true, false, ◌&&◌, ◌||◌, List, [], ◌∷◌, leb, if◌then◌else◌,
  Run, done, ◌>>=◌,
}
use x_grey.Protocol
use x_grey.Protocol.{ift_accept, ift_reject}
use x_grey.Text.{skip_space}
use x_grey.EmailDomain.Reader.{starts_comment}
use x_grey.Postfix.{same_text}
use x_grey.Control.Words.{tuple, show}
use x_grey.Control.{
  Cgilib, Around, Shown, bad_response, cannot_open, syntax_error, commands, send_request,
  iplist_body, address, no_octets, mask_at, verdict_word, iplist_one, tofrom,
}

-- `isalpha` in the locale "C", and the letters at the start of a text.
unfoldable pub is_alpha : ℕ → Bool
is_alpha c = (leb b'A' c && leb c b'Z') || (leb b'a' c && leb c b'z')

unfoldable pub letters : List ℕ → List ℕ
unfolding is_alpha
letters [] = []
letters (c ∷ cs) = let more = letters cs in if is_alpha c then c ∷ more else []

-- What a line asks for: the body of a request, or a syntax error.
unfoldable pub file_entry : Cgilib → List ℕ → Option (List ℕ)
unfolding address mask_at letters verdict_word skip_space iplist_body
file_entry lib line =
    let (octets, n, p) = address 4 0 no_octets line in
    let (mask, rest) = mask_at p in
    elim (verdict_word lib (letters (skip_space rest))) [
      | none ↦ none
      | some cmd ↦ some (iplist_body cmd mask octets)
    ]

-- Every line of such a file is accepted; the mask is made of the octets read.
unfoldable pub relaydelay_entry : List ℕ → List ℕ
unfolding address iplist_body
relaydelay_entry line =
    let (octets, n, p) = address 4 0 no_octets line in iplist_body ift_accept ((n + 1) * 8) octets

unfoldable pub bogonspace_entry : List ℕ → List ℕ
unfolding address mask_at iplist_body
bogonspace_entry line =
    let (octets, n, p) = address 4 0 no_octets line in iplist_body ift_reject (mask_at p).0 octets

-- The loop on the lines of a file, and what it prints: blank lines and comments are skipped, a syntax
-- error ends it.
unfoldable pub send_lines :
    Cgilib → Around → (List ℕ → Option (List ℕ)) → List (List ℕ) → Run (List Shown)
unfolding send_request starts_comment
send_lines lib w entry [] = done []
send_lines lib w entry (line ∷ lines) =
    let rest = send_lines lib w entry lines in
    if lib.empty_string line
    then rest
    else if starts_comment (lib.trim_space line)
    then rest
    else elim (entry (lib.trim_space line)) [
      | none ↦ done (syntax_error ∷ [])
      | some body ↦ send_request w.secret body Protocol.mcp_iplist_resp w.network >>= λ r.
          rest >>= λ shown. done (elim r [ none ↦ bad_response ∷ shown | some b ↦ shown ])
    ]

unfoldable pub iplist_file : Cgilib → Around → List (List ℕ) → Run (List Shown)
unfolding send_lines file_entry
iplist_file lib w lines = send_lines lib w (file_entry lib) lines

unfoldable pub iplist_file_relaydelay : Cgilib → Around → List (List ℕ) → Run (List Shown)
unfolding send_lines relaydelay_entry
iplist_file_relaydelay lib w lines = send_lines lib w (λ line. some (relaydelay_entry line)) lines

unfoldable pub iplist_file_bogonspace : Cgilib → Around → List (List ℕ) → Run (List Shown)
unfolding send_lines bogonspace_entry
iplist_file_bogonspace lib w lines = send_lines lib w (λ line. some (bogonspace_entry line)) lines

-- The files that can be opened, by name.
abbrev pub Files : Type 0
Files = List ℕ → Option (List (List ℕ))

-- One that cannot be opened is named.
abbrev read_file : Files → List ℕ → (List (List ℕ) → Run (List Shown)) → Run (List Shown)
read_file files name f = elim (files name) [ none ↦ done (cannot_open ∷ []) | some lines ↦ f lines ]

abbrev one : Run Shown → Run (List Shown)
one r = r >>= λ x. done (x ∷ [])

-- `iplist`
unfoldable pub iplist : Cgilib → Around → Files → List (List ℕ) → Run (List Shown)
unfolding iplist_one iplist_file iplist_file_relaydelay iplist_file_bogonspace same_text
iplist lib w files (word ∷ what ∷ which ∷ more) =
    let from_file : Run (List Shown) = elim more [
      | [] ↦ read_file files which (iplist_file lib w)
      | kind ∷ others ↦ elim others [
        | [] ↦
            if same_text kind
              (b'r' ∷ b'e' ∷ b'l' ∷ b'a' ∷ b'y' ∷ b'd' ∷ b'e' ∷ b'l' ∷ b'a' ∷ b'y' ∷ [])
            then read_file files which (iplist_file_relaydelay lib w)
            else if same_text kind
                (b'b' ∷ b'o' ∷ b'g' ∷ b'o' ∷ b'n' ∷ b's' ∷ b'p' ∷ b'a' ∷ b'c' ∷ b'e' ∷ [])
            then read_file files which (iplist_file_bogonspace lib w)
            else done []
        | x ∷ xs ↦ done []
      ]
    ] in
    if same_text what (b'f' ∷ b'i' ∷ b'l' ∷ b'e' ∷ [])
    then from_file
    else one (iplist_one lib w what which)
iplist lib w files _ = done []

-- `process_cmdline`
unfoldable pub process_cmdline :
    Cgilib → Around → (data_before reply_before : List ℕ) → Files → List (List ℕ) → Run (List Shown)
unfolding show iplist tofrom tuple same_text
process_cmdline lib w data_before reply_before files [] = Run.abort
process_cmdline lib w data_before reply_before files (word ∷ words) =
    let all : List (List ℕ) = word ∷ words in
    if same_text word (b's' ∷ b'h' ∷ b'o' ∷ b'w' ∷ [])
    then one (show w all)
    else if same_text word (b'i' ∷ b'p' ∷ b'l' ∷ b'i' ∷ b's' ∷ b't' ∷ [])
    then iplist lib w files all
    else if same_text word (b't' ∷ b'o' ∷ [])
    then one (tofrom lib w all Protocol.mcp_to Protocol.mcp_to_resp false)
    else if same_text word (b't' ∷ b'o' ∷ b'-' ∷ b'd' ∷ b'o' ∷ b'm' ∷ b'a' ∷ b'i' ∷ b'n' ∷ [])
    then one (tofrom lib w all Protocol.mcp_to_domain Protocol.mcp_to_domain_resp true)
    else if same_text word (b'f' ∷ b'r' ∷ b'o' ∷ b'm' ∷ [])
    then one (tofrom lib w all Protocol.mcp_from Protocol.mcp_from_resp false)
    else if same_text word
        (b'f' ∷ b'r' ∷ b'o' ∷ b'm' ∷ b'-' ∷ b'd' ∷ b'o' ∷ b'm' ∷ b'a' ∷ b'i' ∷ b'n' ∷ [])
    then one (tofrom lib w all Protocol.mcp_from_domain Protocol.mcp_from_domain_resp true)
    else if same_text word (b't' ∷ b'u' ∷ b'p' ∷ b'l' ∷ b'e' ∷ [])
    then tuple lib w data_before reply_before all
    else if same_text word (b'h' ∷ b'e' ∷ b'l' ∷ b'p' ∷ []) || same_text word (b'?' ∷ [])
    then done (commands ∷ [])
    else done []

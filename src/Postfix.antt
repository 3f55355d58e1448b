-- ===== src/Postfix.antt =====
-- postfix/pfc.c: the policy service that Postfix asks, one request of lines `name=value` at a time.
pub mod Bytes
pub mod Lines
pub mod Packing
use x_grey.Prelude.{
  ℕ, zero, suc, ◌+◌, ◌-◌, ◌%◌, Option, none, some, Bool, true, false, ◌&&◌, not, List, [], ◌∷◌,
  ◌++◌, ◌==◌, leb, if◌then◌else◌, length, take, drop, set, Run, done, abort, assert, ◌>>=◌,
}
use x_grey.Protocol.{version, ift_accept, ift_reject, ift_greylist}
use x_grey.Text.{cstring, is_empty}
use x_grey.Text.Number.{strtoul}
use x_grey.Client.{Network, ask}

-- The four numbers of `check_greylist`, and a byte passed over behind each. A read behind the NUL is
-- a fault.
unfoldable pub pack_ip : ℕ → List ℕ → Run (List ℕ)
unfolding strtoul
pack_ip zero d = done []
pack_ip (suc zero) d = done (((strtoul d).0 % 256) ∷ [])
pack_ip (suc (suc n)) d = elim (strtoul d).1 [
  | [] ↦ abort
  | b ∷ bs ↦ pack_ip (suc n) bs >>= λ more. done (((strtoul d).0 % 256) ∷ more)
]

-- `network` is what comes of the packet sent.
unfoldable pub check_greylist : List ℕ → List ℕ → List ℕ → List ℕ → (List ℕ → Network) → Run ℕ
unfolding pack_ip ask
check_greylist secret ip from to network =
    pack_ip 4 ip >>= λ octets. ask (λ v. not (v == version)) secret octets from to network

-- `memchr`: the place of a byte.
unfoldable pub memchr : ℕ → List ℕ → Option ℕ
memchr b [] = none
memchr b (x ∷ xs) =
    let place = memchr b xs in
    if x == b then some 0 else elim place [ none ↦ none | some i ↦ some (suc i) ]

-- `strcmp` with equal texts.
unfoldable pub same_text : List ℕ → List ℕ → Bool
same_text [] [] = true
same_text [] (y ∷ ys) = false
same_text (x ∷ xs) [] = false
same_text (x ∷ xs) (y ∷ ys) = (x == y) && same_text xs ys

-- The variables `request`, `from`, `to` and `ip`.
pub record Fields : Type 0 where
  pub request : List ℕ
  pub from : List ℕ
  pub to : List ℕ
  pub ip : List ℕ

abbrev pub no_fields : Fields
no_fields = record { request = []; from = []; to = []; ip = [] }

abbrev pub word_request : List ℕ
word_request = b'r' ∷ b'e' ∷ b'q' ∷ b'u' ∷ b'e' ∷ b's' ∷ b't' ∷ []

abbrev pub word_sender : List ℕ
word_sender = b's' ∷ b'e' ∷ b'n' ∷ b'd' ∷ b'e' ∷ b'r' ∷ []

abbrev pub word_recipient : List ℕ
word_recipient = b'r' ∷ b'e' ∷ b'c' ∷ b'i' ∷ b'p' ∷ b'i' ∷ b'e' ∷ b'n' ∷ b't' ∷ []

abbrev pub word_client_address : List ℕ
word_client_address =
    b'c' ∷ b'l' ∷ b'i' ∷ b'e' ∷ b'n' ∷ b't' ∷ b'_' ∷ b'a' ∷ b'd' ∷ b'd' ∷ b'r' ∷ b'e' ∷ b's' ∷ b's'
    ∷ []

unfoldable pub keep_field : Fields → List ℕ → List ℕ → Fields
unfolding same_text
keep_field f name value =
    if same_text name word_request
    then record f { request = value }
    else if same_text name word_sender
    then record f { from = value }
    else if same_text name word_recipient
    then record f { to = value }
    else if same_text name word_client_address
    then record f { ip = value }
    else f

-- `buffer`: the first `bufsiz` bytes, and those behind them.
pub record Buffer : Type 0 where
  pub live : List ℕ
  pub stale : List ℕ

-- The `memmove` of what is behind the first `n` bytes to the start.
unfoldable pub shift : ℕ → List ℕ → ℕ → Buffer
shift n bytes size =
    let moved : List ℕ = take (size - n) (drop n bytes) in
    record { live = moved; stale = drop (length moved) bytes }

-- What the loop finds without another `read`: no whole line; an empty line, behind which the buffer
-- starts again; a line without a name, with no other behind it.
pub data Scan : Type 0 where
  partial ended : (f : Fields) (b : Buffer) → Scan
  malformed : Scan

-- The line once the two bytes are NUL: it ends at `p`, its value starts behind `v`.
unfoldable pub read_field : Fields → List ℕ → ℕ → ℕ → ℕ → Run (Fields × Buffer)
unfolding cstring keep_field shift
read_field f bytes p v size = elim (cstring bytes) [
  | none ↦ abort
  | some name ↦ elim (cstring (drop (suc v) bytes)) [
    | none ↦ abort
    | some value ↦ done (keep_field f name value, shift (suc p) bytes size)
  ]
]

-- A line of at least one byte that ends at `p`, where a `=` is at `v`, in the line or behind it: the
-- two bytes are set to NUL.
unfoldable pub take_field : Fields → Buffer → ℕ → ℕ → Run (Fields × Buffer)
unfolding read_field
take_field f b p v = read_field f (set (set (b.live ++ b.stale) p 0) v 0) p v (length b.live)

-- The loop of `process_request` up to where it reads; every round takes a line off the buffer.
unfoldable pub scan : ℕ → Fields → Buffer → Run Scan
unfolding memchr take_field shift
scan zero f b = done (partial f b)
scan (suc fuel) f b = elim (memchr b'\n' b.live) [
  | none ↦ done (partial f b)
  | some zero ↦ done (ended f (shift 1 (b.live ++ b.stale) (length b.live)))
  | some (suc p) ↦ elim (memchr b'=' b.live) [
    | none ↦ done malformed
    | some v ↦ take_field f b (suc p) v >>= λ (f', b'). scan fuel f' b'
  ]
]

-- What a `read` gives: an error, or bytes, none at the end of the input.
pub data Input : Type 0 where
  failed : Input
  bytes : List ℕ → Input

-- BUFSIZ
abbrev pub buffer_size : ℕ
buffer_size = 8192

-- What comes of a request: the loop waits for more input; the program ends; or the request is
-- whole, with what is left in the buffer and of the input.
pub data Heard : Type 0 where
  waiting stopped : Heard
  asked : (f : Fields) (b : Buffer) (input : List Input) → Heard

-- The `read` and the pass over the buffer behind it, until a request is whole.
unfoldable pub refill : Fields → Buffer → List Input → Run Heard
unfolding scan
refill f b [] = done waiting
refill f b (i ∷ is) = if length b.live == buffer_size then done stopped else elim i [
  | failed ↦ done stopped
  | bytes read ↦
      if is_empty read
      then done stopped
      else (assert (leb (length b.live + length read) buffer_size) >>= λ _.
          scan (suc (length b.live + length read)) f
            (record { live = b.live ++ read; stale = drop (length read) b.stale })
          >>= λ found. elim found [
            | malformed ↦ done stopped
            | ended f' b' ↦ done (asked f' b' is)
            | partial f' b' ↦ refill f' b' is
          ])
]

-- `process_request` up to the empty line; the flag is the static variable `refill`.
unfoldable pub hear_request : Bool → Buffer → List Input → Run Heard
unfolding scan refill
hear_request true b input = refill no_fields b input
hear_request false b input = scan (suc (length b.live)) no_fields b >>= λ found. elim found [
  | malformed ↦ done stopped
  | ended f' b' ↦ done (asked f' b' input)
  | partial f' b' ↦ refill f' b' input
]

-- The three answers that Postfix gets.
pub data Action : Type 0 where
  dunno reject defer : Action

-- The switch on the verdict; any other fails `assert(0)`.
unfoldable pub action_of : ℕ → Run Action
action_of v =
    if v == ift_accept
    then done dunno
    else if v == ift_reject
    then done reject
    else if v == ift_greylist
    then done defer
    else abort

-- A call of `process_request` that comes to an answer: the answer, what is left in the buffer and of
-- the input; `none` ends the program or waits for ever.
unfoldable pub process_request :
    List ℕ
    → (List ℕ → Network)
    → Bool
    → Buffer
    → List Input
    → Run (Option (Action × Buffer × List Input))
unfolding hear_request check_greylist action_of
process_request secret network flag b input = hear_request flag b input >>= λ heard. elim heard [
  | waiting ↦ done none
  | stopped ↦ done none
  | asked f b' rest ↦ check_greylist secret f.ip f.from f.to network >>= λ v.
      action_of v >>= λ a. done (some (a, b', rest))
]

-- ===== src/Sendmail.antt =====
-- sendmail/smc.c: the callbacks of the milter, over one connection.
pub mod Envelope
use x_grey.Prelude.{
  ℕ, ◌+◌, Option, none, some, Bool, true, false, ◌||◌, List, [], ◌∷◌, ◌++◌, ◌==◌, ltb,
  if◌then◌else◌, length, min, take, drop, replicate, Run, done, abort, ◌>>=◌,
}
use x_grey.Protocol.{version, ift_accept, ift_reject, ift_greylist}
use x_grey.Client.{Network, ask}
use x_grey.Text.{cstring}

-- `remove_char` of cgilib6, which changes a string in its array.
abbrev pub RemoveChar : Type 0
RemoveChar = (ℕ → Bool) → List ℕ → List ℕ

-- `struct mfprivate`; `sip` is always 4.
pub record Private : Type 0 where
  pub ip : List ℕ
  pub sender : List ℕ

-- SMFIS_...
pub data SmfiStatus : Type 0 where
  proceed accept reject tempfail : SmfiStatus

-- `sizeof(data->sender)`
abbrev pub sender_size : ℕ
sender_size = 200

unfoldable pub isbracket : ℕ → Bool
isbracket c = (c == b'>') || (c == b'<')

unfoldable pub check_greylist : List ℕ → List ℕ → List ℕ → List ℕ → (List ℕ → Network) → Run ℕ
unfolding ask
check_greylist secret ip from to network = ask (λ v. ltb version v) secret ip from to network

-- The private data is made if there is none; `ip` is the address of the socket.
unfoldable pub mf_connect : List ℕ → Option Private → Option Private × SmfiStatus
mf_connect ip data_before = (some (record { ip = ip; sender = replicate sender_size 0 }), proceed)

-- `memcpy` of the first `n` bytes of a text.
unfoldable pub overwrite : ℕ → List ℕ → List ℕ → List ℕ
overwrite n text array = take n text ++ drop n array

-- The flag says that the sender has authenticated.
unfoldable pub mf_mail_from :
    RemoveChar → Bool → List ℕ → Option Private → Run (Option Private × SmfiStatus)
unfolding overwrite isbracket
mf_mail_from remove_char true arg p = done (p, accept)
mf_mail_from remove_char false arg none = abort
mf_mail_from remove_char false arg (some p) =
    let size : ℕ = min 199 (length arg) in
    done (some (record p { sender = remove_char isbracket (overwrite size arg p.sender) }), proceed)

-- The switch on the verdict; any other fails `assert(0)`.
unfoldable pub status_of : ℕ → Run SmfiStatus
status_of v =
    if v == ift_accept
    then done accept
    else if v == ift_reject
    then done reject
    else if v == ift_greylist
    then done tempfail
    else abort

-- The copy of the argument ends in a NUL. A string without one is read behind its array.
unfoldable pub mf_rcpt_to :
    RemoveChar → List ℕ → (List ℕ → Network) → List ℕ → Option Private → Run SmfiStatus
unfolding check_greylist status_of isbracket cstring
mf_rcpt_to remove_char secret network arg none = abort
mf_rcpt_to remove_char secret network arg (some p) =
    elim (cstring (remove_char isbracket (arg ++ (0 ∷ [])))) [
      | none ↦ abort
      | some to ↦ elim (cstring p.sender) [
        | none ↦ abort
        | some from ↦ check_greylist secret p.ip from to network >>= status_of
      ]
    ]

unfoldable pub mf_close : Option Private → Option Private × SmfiStatus
mf_close p = (none, proceed)

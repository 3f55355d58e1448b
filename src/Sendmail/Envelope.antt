-- ===== src/Sendmail/Envelope.antt =====
-- The question that the milter of sendmail/smc.c asks about an envelope.
use x_grey.Prelude.{ℕ, ◌≡◌, Option, some, Bool, List, [], ◌∷◌, if◌then◌else◌, Run, done, ◌>>=◌}
use x_grey.Client.{Network}
use x_grey.Text.{cstring}
use x_grey.Sendmail.{
  RemoveChar, Private, SmfiStatus, accept, reject, tempfail, proceed, isbracket, mf_connect,
  mf_mail_from, mf_rcpt_to,
}

-- A text without its brackets.
unfoldable pub unbracketed : List ℕ → List ℕ
unfolding isbracket
unbracketed [] = []
unbracketed (c ∷ cs) = let rest = unbracketed cs in if isbracket c then rest else c ∷ rest

-- What `remove_char` promises: of the string in the array the characters are gone that the test
-- holds for.
unfoldable pub Removes : RemoveChar → Type 0
Removes remove_char =
    (array text : List ℕ)
    → cstring array ≡ some text
    → cstring (remove_char isbracket array) ≡ some (unbracketed text)

-- An envelope: a connection, its sender, a recipient. After SMFIS_ACCEPT libmilter makes no further
-- calls for the message. The flag says that the sender has authenticated.
unfoldable pub envelope :
    RemoveChar
    → Bool
    → List ℕ
    → (List ℕ → Network)
    → (ip from to : List ℕ) → Option Private
    → Run SmfiStatus
unfolding mf_connect
envelope remove_char auth secret network ip from to before =
    mf_mail_from remove_char auth from (mf_connect ip before).0 >>= λ (p, status). elim status [
      | accept ↦ done accept
      | reject ↦ done reject
      | tempfail ↦ done tempfail
      | proceed ↦ mf_rcpt_to remove_char secret network to p
    ]

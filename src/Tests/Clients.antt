-- ===== src/Tests/Clients.antt =====
-- The clients, each at one question.
use x_grey.Prelude.{
  ℕ, ◌≡◌, refl, All, Option, none, some, true, false, List, [], ◌∷◌, ◌==◌, arith, done, Returns,
  replicate, if◌then◌else◌, ◌>>=◌, not,
}
use x_grey.Protocol.{version}
use x_grey.Tuple.Key.{tuple_key}
use x_grey.Text.Number.{decimal}
use x_grey.Text.Address.{parse_ip, ipv4}
use x_grey.Text.Address.Round.{parse_ip-ipv4}
use x_grey.Postfix.{same_text}
use x_grey.Server.{judge}
use x_grey.Daemon.{handle_packet}
use x_grey.Client.{unanswered, ask}
use x_grey.Client.Sent.{arrived, triple}
use x_grey.Client.Signing.{packet_of}
use x_grey.Client.Judged.{question, asked, told, handle_packet-judge}
use x_grey.Client.Exchange.{exchange, IsServed, exchange-IsServed}
use x_grey.Postfix.{Fields, no_fields, Input, bytes, hear_request}
use x_grey.Postfix.Lines.{IsAttribute, render, kept, IsTaken, hear_request-render}
use x_grey.Postfix.Packing.{check_greylist-ipv4}
use x_grey.Sendmail.{RemoveChar}
use x_grey.Sendmail.Envelope.{unbracketed}
use x_grey.Tests.Base.{two_slots, one_tuple-IsPool}
use x_grey.Tests.Daemons.{daemon, daemon-HasLists, setup}

parse_ip-ipv4_example :
    (parse_ip (9 ∷ 9 ∷ 9 ∷ 9 ∷ []) (ipv4 10 0 0 9 []) ≡ some (10 ∷ 0 ∷ 0 ∷ 9 ∷ [], 32))
    × (parse_ip (9 ∷ 9 ∷ 9 ∷ 9 ∷ []) (ipv4 10 0 0 9 (b'/' ∷ decimal 8 []))
        ≡ some (10 ∷ 0 ∷ 0 ∷ 9 ∷ [], 8))
parse_ip-ipv4_example =
    parse_ip-ipv4 10 0 0 9 8 9 9 9 9 [] (omega arith) (omega arith) (omega arith) (omega arith)
      (omega arith)

abbrev sender : List ℕ
sender = b'a' ∷ b'@' ∷ b'b' ∷ []

abbrev recipient : List ℕ
recipient = b'c' ∷ b'@' ∷ b'd' ∷ []

handle_packet-judge_example :
    handle_packet setup
      (record { has_socket = true; has_process = true })
      (arrived 100 100 (packet_of (b's' ∷ []) (question (10 ∷ 0 ∷ 0 ∷ 9 ∷ []) sender recipient)) [])
      daemon
    ≡ (judge two_slots
          (arrived 100 100
            (packet_of (b's' ∷ []) (question (10 ∷ 0 ∷ 0 ∷ 9 ∷ []) sender recipient))
            [])
          false
          (triple 100 (10 ∷ 0 ∷ 0 ∷ 9 ∷ []) sender recipient)
          (asked daemon)
        >>= λ r. done (told r))
handle_packet-judge_example =
    handle_packet-judge setup (record { has_socket = true; has_process = true }) 100 100 10 0 0 9
      sender recipient [] daemon (omega arith)

exchange-IsServed_example :
    Returns
      (exchange
        (λ v. not (v == version))
        setup
        (record { has_socket = true; has_process = true })
        100
        100
        (0 ∷ 0 ∷ [])
        (replicate 1400 0)
        (replicate 1400 0)
        (10 ∷ 0 ∷ 0 ∷ 9 ∷ [])
        sender
        recipient
        daemon)
      (IsServed two_slots (tuple_key (triple 100 (10 ∷ 0 ∷ 0 ∷ 9 ∷ []) sender recipient)))
exchange-IsServed_example =
    exchange-IsServed (λ v. not (v == version)) setup
      (record { has_socket = true; has_process = true }) 100 100 10 0 0 9 (0 ∷ 0 ∷ [])
      (replicate 1400 0) (replicate 1400 0) sender recipient daemon (omega arith) refl (omega arith)
      one_tuple-IsPool daemon-HasLists (omega arith)

-- The attributes `sender=a@b` and `x=y=z`.
abbrev attributes : List (List ℕ × List ℕ)
attributes =
    (b's' ∷ b'e' ∷ b'n' ∷ b'd' ∷ b'e' ∷ b'r' ∷ [], sender)
    ∷ (b'x' ∷ [], b'y' ∷ b'=' ∷ b'z' ∷ [])
    ∷ []

attributes-IsAttribute : All IsAttribute attributes
attributes-IsAttribute = (
  record {
    name_plain = (refl, (refl, (refl, (refl, (refl, (refl, tt))))));
    name_line = (refl, (refl, (refl, (refl, (refl, (refl, tt))))));
    value_line = (refl, (refl, (refl, tt)));
    name_text = (refl, (refl, (refl, (refl, (refl, (refl, tt))))));
    value_text = (refl, (refl, (refl, tt)));
  },
  (
    record {
      name_plain = (refl, tt);
      name_line = (refl, tt);
      value_line = (refl, (refl, (refl, tt)));
      name_text = (refl, tt);
      value_text = (refl, (refl, (refl, tt)));
    },
    tt,
  ),
)

hear_request-render_example :
    Returns
      (hear_request true
        (record { live = []; stale = [] })
        (bytes (render attributes (b'r' ∷ [])) ∷ []))
      (IsTaken (kept no_fields attributes) (b'r' ∷ []) [])
    × Returns
        (hear_request false (record { live = render attributes (b'r' ∷ []); stale = [] }) [])
        (IsTaken (kept no_fields attributes) (b'r' ∷ []) [])
unfolding render
hear_request-render_example =
    hear_request-render attributes (b'r' ∷ []) [] [] attributes-IsAttribute (omega arith)

check_greylist-ipv4_example :
    x_grey.Postfix.check_greylist (b's' ∷ []) (ipv4 10 0 0 9 []) sender recipient (λ p. unanswered)
    ≡ ask
        (λ v. not (v == version))
        (b's' ∷ [])
        (10 ∷ 0 ∷ 0 ∷ 9 ∷ [])
        sender
        recipient
        (λ p. unanswered)
check_greylist-ipv4_example =
    check_greylist-ipv4 (b's' ∷ []) 10 0 0 9 sender recipient (λ p. unanswered) (omega arith)
      (omega arith) (omega arith) (omega arith)

-- A `remove_char`, which moves what is kept of the string to the front.
unfoldable remove_before_nul : RemoveChar
remove_before_nul test [] = []
remove_before_nul test (c ∷ cs) =
    let rest = remove_before_nul test cs in
    if c == 0 then c ∷ cs else if test c then rest else c ∷ rest

-- The string of an array without its brackets.
abbrev kept_of : Option (List ℕ) → Option (List ℕ)
kept_of none = none
kept_of (some text) = some (unbracketed text)

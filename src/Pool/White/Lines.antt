-- ===== src/Pool/White/Lines.antt =====
-- A triple that `whitelist_dump_stream` of server/tuple.c writes is the triple that `whitelist_load`
-- reads.
use x_grey.Prelude.{
  ℕ, zero, suc, ◌-◌, ◌%◌, ◌<◌, ◌≤◌, ◌≡◌, refl, ap, ◌∙◌, some, false, List, [], ◌∷◌, ◌++◌, ◌==◌, ltb,
  length, min, take, drop, replicate, arith, done, ◌>>=◌,
}
use x_grey.Text.{cstring}
use x_grey.Text.Strings.{Lacks, cstring-append}
use x_grey.Text.Number.{is_digit, decimal}
use x_grey.Text.Number.Round.{strtoul-decimal}
use x_grey.Text.Address.{ipv4}
use x_grey.Postfix.{same_text}
use x_grey.Postfix.Bytes.{memchr-append, take_past}
use x_grey.Client.Sent.{triple}
use x_grey.Pool.White.{text_or_dash, white_line, read_octets, copied, white_tuple, white_entry}

-- A text that the file can hold: it fits, no blank or NUL is in it, and it is not the dash.
pub record IsPlain (text : List ℕ) : Type 0 where
  pub fits : length text ≤ 107
  pub no_blank : Lacks b' ' text
  pub no_nul : Lacks 0 text
  pub no_dash : same_text text (b'-' ∷ []) ≡ false

-- How it stands there.
abbrev pub printed : List ℕ → List ℕ
printed [] = b'-' ∷ []
printed (c ∷ cs) = c ∷ cs

printed-Lacks : (text : List ℕ) → Lacks b' ' text → Lacks b' ' (printed text)
printed-Lacks [] h = (refl, tt)
printed-Lacks (c ∷ cs) h = h

take_all : (n : ℕ) (xs : List ℕ) → length xs ≤ n → take n xs ≡ xs
take_all zero [] h = refl
take_all zero (x ∷ xs) h = absurd (omega arith)
take_all (suc n) [] h = refl
take_all (suc n) (x ∷ xs) h = ap (λ (r : List ℕ). x ∷ r) (take_all n xs (omega arith))

-- A text in its array of 108 bytes.
abbrev pub array_of : List ℕ → List ℕ
array_of text = take 107 text ++ replicate (108 - min 107 (length text)) 0

cstring-array_of :
    (text : List ℕ) → length text ≤ 107 → Lacks 0 text → cstring (array_of text) ≡ some text
cstring-array_of text h k =
    ap (λ (xs : List ℕ). cstring (xs ++ replicate (108 - min 107 (length text)) 0))
      (take_all 107 text h)
    ∙ ap (λ n. cstring (text ++ replicate n 0)) (room (length text) h)
    ∙ cstring-append text (replicate (107 - length text) 0) k
  where
    room : (n : ℕ) → n ≤ 107 → 108 - min 107 n ≡ suc (107 - n)
    room n h = omega arith

pub text_or_dash-printed :
    (text : List ℕ)
    → IsPlain text
    → text_or_dash (min 107 (length text)) (array_of text) ≡ done (printed text)
unfolding text_or_dash
text_or_dash-printed [] p = refl
text_or_dash-printed (c ∷ cs) p =
    rw (some_bytes (length cs), text_or_dash, cstring-array_of (c ∷ cs) p.fits p.no_nul) refl
  where
    some_bytes : (n : ℕ) → (min 107 (suc n) == 0) ≡ false
    some_bytes n = ground arith

copied-printed :
    (text : List ℕ) → IsPlain text → copied (printed text) ≡ (min 107 (length text), array_of text)
unfolding copied same_text
copied-printed [] p = refl
copied-printed (c ∷ cs) p = rw (p.no_dash, copied) refl

byte : (v : ℕ) → v < 256 → v % 256 ≡ v
byte v h = omega arith

read_octets-decimal :
    (n v b : ℕ) (rest : List ℕ)
    → v < 256
    → is_digit b ≡ false
    → read_octets (suc n) (decimal v (b ∷ rest)) ≡ (read_octets n rest >>= λ r. done (v ∷ r.0, r.1))
unfolding read_octets
read_octets-decimal n v b rest h d =
    let e = strtoul-decimal v (b ∷ rest) (omega arith) d in rw (e, read_octets, e, byte v h) refl

pub read_octets-ipv4 :
    (a b c d : ℕ) (rest : List ℕ)
    → a < 256
    → b < 256
    → c < 256
    → d < 256
    → read_octets 4 (ipv4 a b c d (b' ' ∷ rest)) ≡ done (a ∷ b ∷ c ∷ d ∷ [], rest)
unfolding ipv4 read_octets
read_octets-ipv4 a b c d rest ha hb hc hd =
    rw
      (
        read_octets-decimal 3 a b'.' _ ha refl,
        read_octets-decimal 2 b b'.' _ hb refl,
        read_octets-decimal 1 c b'.' _ hc refl,
        read_octets-decimal 0 d b' ' rest hd refl,
      )
      refl

drop_next : (xs ys : List ℕ) (b : ℕ) → drop (suc (length xs)) (xs ++ (b ∷ ys)) ≡ ys
drop_next [] ys b = refl
drop_next (x ∷ xs) ys b = drop_next xs ys b

pub white_tuple-printed :
    (now : ℕ) (ip from to : List ℕ)
    → IsPlain from
    → IsPlain to
    → white_tuple now ip (printed from ++ (b' ' ∷ printed to)) ≡ some (triple now ip from to)
unfolding white_tuple
white_tuple-printed now ip from to p q =
    rw
      (
        memchr-append b' ' (printed from) (printed to) (printed-Lacks from p.no_blank),
        white_tuple,
        take_past (printed from) (b' ' ∷ printed to),
        drop_next (printed from) (printed to) b' ',
        copied-printed from p,
        copied-printed to q,
        whole (length from) p.fits,
        whole (length to) q.fits,
      )
      refl
  where
    whole : (n : ℕ) → n ≤ 107 → ltb 107 n ≡ false
    whole n h = ground arith

-- A triple of an address of four octets, with texts that fit, hold no blank or NUL and are not the
-- dash, empty ones included, is written as a line that is read as the same triple at the time of the
-- reading.
white_line-white_entry :
    (a b c d made now : ℕ) (from to : List ℕ)
    → a < 256
    → b < 256
    → c < 256
    → d < 256
    → IsPlain from
    → IsPlain to
    → let ip : List ℕ = a ∷ b ∷ c ∷ d ∷ [] in
      (white_line (triple made ip from to) >>= white_entry now)
      ≡ done (some (triple now ip from to))
unfolding white_line white_entry
white_line-white_entry a b c d made now from to ha hb hc hd p q =
    rw
      (
        text_or_dash-printed from p,
        text_or_dash-printed to q,
        read_octets-ipv4 a b c d (printed from ++ (b' ' ∷ printed to)) ha hb hc hd,
      )
      (ap done (white_tuple-printed now (a ∷ b ∷ c ∷ d ∷ []) from to p q))

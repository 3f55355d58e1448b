-- ===== src/Pool/White/Told.antt =====
-- server/tuple.c: the line of a tuple in memory, and the tuple that `whitelist_load` makes of it.
use x_grey.Prelude.{
  ℕ, ◌<◌, ◌≤◌, ◌≡◌, refl, ap, ◌∙◌, some, true, false, List, [], ◌∷◌, ◌++◌, All, ltb, length, min,
  replicate, arith, done,
}
use x_grey.Text.{is_space}
use x_grey.Text.Trimmed.{starts, ends, ends-append, ends-All}
use x_grey.Text.Number.{decimal}
use x_grey.Text.Number.Printed.{decimal-starts, decimal-ends}
use x_grey.Text.Address.{ipv4}
use x_grey.Tuple.{Tuple, no_flags}
use x_grey.Client.Sent.{triple}
use x_grey.Pool.White.{white_line, white_entry}
use x_grey.Pool.White.Lines.{
  IsPlain, printed, array_of, text_or_dash-printed, read_octets-ipv4, white_tuple-printed,
}

-- A tuple whose line tells it: an address of four octets, and texts that fit, have no space or NUL and
-- are not the dash.
pub record IsTold (t : Tuple) : Type 0 where
  pub a : ℕ
  pub b : ℕ
  pub c : ℕ
  pub d : ℕ
  pub from : List ℕ
  pub to : List ℕ
  pub octets : (a < 256) × ((b < 256) × ((c < 256) × (d < 256)))
  pub ip : t.ip ≡ a ∷ b ∷ c ∷ d ∷ replicate 12 0
  pub fromsize : t.fromsize ≡ min 107 (length from)
  pub from_array : t.from ≡ array_of from
  pub tosize : t.tosize ≡ min 107 (length to)
  pub to_array : t.to ≡ array_of to
  pub from_plain : IsPlain from
  pub to_plain : IsPlain to
  pub to_dark : All (λ x. is_space x ≡ false) to

-- What is read of a tuple: its address and texts, at the time of the reading.
unfoldable pub reread : ℕ → Tuple → Tuple
reread now t = record t { ctime = now; atime = now; pad = 0xDECAFBAD; f = no_flags }

-- A line that the reader takes for a tuple.
pub record IsLineOf (line : List ℕ) (t : Tuple) : Type 0 where
  pub body : List ℕ
  pub is_line : line ≡ body ++ (10 ∷ [])
  pub begins : starts body ≡ true
  pub finishes : ends body ≡ true
  pub reads : (now : ℕ) → white_entry now body ≡ done (some (reread now t))

ends-cons : (b : ℕ) (t : List ℕ) → ends t ≡ true → ends (b ∷ t) ≡ true
ends-cons b [] h = ground arith
ends-cons b (c ∷ bs) h = h

decimal_end : (n b : ℕ) (t : List ℕ) → ends t ≡ true → ends (decimal n (b ∷ t)) ≡ true
decimal_end n b t h = decimal-ends n b t ∙ ends-cons b t h

printed-ends : (t : List ℕ) → All (λ x. is_space x ≡ false) t → ends (printed t) ≡ true
unfolding is_space
printed-ends [] h = refl
printed-ends (b ∷ bs) h = ends-All b bs h

whole : (n : ℕ) → n ≤ 107 → ltb 107 n ≡ false
whole n h = ground arith

module _ (t : Tuple) (h : IsTold t) where
  abbrev pub body_of : List ℕ
  body_of = ipv4 h.a h.b h.c h.d (b' ' ∷ (printed h.from ++ (b' ' ∷ printed h.to)))

  pub white_line-body_of : white_line t ≡ done body_of
  unfolding white_line
  white_line-body_of =
      rw
        (
          h.fromsize,
          h.from_array,
          h.tosize,
          h.to_array,
          h.ip,
          text_or_dash-printed h.from h.from_plain,
          text_or_dash-printed h.to h.to_plain,
        )
        refl

  body_ends : ends body_of ≡ true
  unfolding ipv4 is_space
  body_ends =
      let texts : List ℕ = printed h.from ++ (b' ' ∷ printed h.to) in
      let last : List ℕ = decimal h.d (b' ' ∷ texts) in
      let third : List ℕ = decimal h.c (b'.' ∷ last) in
      let second : List ℕ = decimal h.b (b'.' ∷ third) in
      let e4 : ends texts ≡ true =
        ends-append (printed h.from) b' ' (printed h.to)
        ∙ ends-cons b' ' (printed h.to) (printed-ends h.to h.to_dark) in
      let e3 : ends last ≡ true = decimal_end h.d b' ' texts e4 in
      let e2 : ends third ≡ true = decimal_end h.c b'.' last e3 in
      decimal_end h.a b'.' second (decimal_end h.b b'.' third e2)

  same : (now : ℕ) → triple now (h.a ∷ h.b ∷ h.c ∷ h.d ∷ []) h.from h.to ≡ reread now t
  unfolding reread
  same now =
      rw
        (
          h.fromsize,
          h.from_array,
          h.tosize,
          h.to_array,
          h.ip,
          whole (length h.from) h.from_plain.fits,
          whole (length h.to) h.to_plain.fits,
        )
        refl

  body_reads : (now : ℕ) → white_entry now body_of ≡ done (some (reread now t))
  unfolding white_entry reread
  body_reads now =
      let (ha, (hb, (hc, hd))) = h.octets in
      rw
        (
          read_octets-ipv4 h.a h.b h.c h.d (printed h.from ++ (b' ' ∷ printed h.to)) ha hb hc hd,
          white_tuple-printed now (h.a ∷ h.b ∷ h.c ∷ h.d ∷ []) h.from h.to h.from_plain h.to_plain,
        )
        (ap (λ (u : Tuple). done (some u)) (same now))

  -- The line of the tuple is taken for the tuple.
  pub body-IsLineOf : IsLineOf (body_of ++ (10 ∷ [])) t
  unfolding ipv4
  body-IsLineOf = record {
    body = body_of;
    is_line = refl;
    begins = decimal-starts h.a _;
    finishes = body_ends;
    reads = body_reads;
  }

-- ===== src/Postfix/Lines.antt =====
-- `process_request` of postfix/pfc.c reads the request that Postfix writes.
use mathlib.Core.List.{append_assoc}
use x_grey.Prelude.{
  ℕ, zero, suc, ◌+◌, ◌-◌, ◌<◌, ◌≤◌, ◌≡◌, refl, sym, subst, ap, ◌∙◌, some, true, false, List, [],
  ◌∷◌, ◌++◌, ◌==◌, All, length, length-append, take, drop, set, arith, done, Returns, Returns-bind,
  le→leb, Run,
}
use x_grey.Text.{cstring, is_empty}
use x_grey.Text.Strings.{Lacks, cstring-append}
use x_grey.Postfix.{
  memchr, Fields, no_fields, keep_field, Buffer, shift, Scan, ended, read_field, take_field, scan,
  Input, bytes, buffer_size, Heard, asked, stopped, malformed, partial, hear_request, refill,
}
use x_grey.Postfix.Bytes.{memchr-append, drop_next, take_past, All-append, cut_bytes, cut_tail}

-- An attribute: a name without `=`, and a value, neither with an end of line or a NUL.
pub record IsAttribute (a : List ℕ × List ℕ) : Type 0 where
  pub name_plain : Lacks b'=' a.0
  pub name_line : Lacks b'\n' a.0
  pub value_line : Lacks b'\n' a.1
  pub name_text : Lacks 0 a.0
  pub value_text : Lacks 0 a.1

-- The request of some attributes, before what follows it.
unfoldable pub render : List (List ℕ × List ℕ) → List ℕ → List ℕ
render [] rest = b'\n' ∷ rest
render (a ∷ more) rest = (a.0 ++ (b'=' ∷ a.1)) ++ (b'\n' ∷ render more rest)

-- What is kept of them; a later one wins.
unfoldable pub kept : Fields → List (List ℕ × List ℕ) → Fields
kept f [] = f
kept f (a ∷ more) = kept (keep_field f a.0 a.1) more

-- The buffer after a move.
shift-append :
    (n size : ℕ) (all more stale : List ℕ)
    → drop n all ≡ more ++ stale
    → size - n ≡ length more
    → shift n all size ≡ record { live = more; stale = drop (length more) all }
unfolding shift
shift-append n size all more stale e k =
    ap (λ (xs : List ℕ). record { live = xs; stale = drop (length xs) all })
      (ap (λ m. take m (drop n all)) k ∙ ap (take (length more)) e ∙ take_past more stale)

-- The length of a line with one byte or another at its `=`.
line_size :
    (name value : List ℕ) (a : ℕ) → length (name ++ (a ∷ value)) ≡ suc (length name + length value)
line_size name value a = omega (arith, length-append name (a ∷ value))

-- The buffer that a line leaves behind.
abbrev left_over : List ℕ → List ℕ → List ℕ → List ℕ → List ℕ
left_over name value more stale =
    drop (length more) (name ++ (0 ∷ (value ++ (0 ∷ (more ++ stale)))))

shift-line :
    (name value more stale : List ℕ)
    → shift
        (suc (length (name ++ (b'=' ∷ value))))
        (name ++ (0 ∷ (value ++ (0 ∷ (more ++ stale)))))
        (length ((name ++ (b'=' ∷ value)) ++ (b'\n' ∷ more)))
      ≡ record { live = more; stale = left_over name value more stale }
shift-line name value more stale =
    shift-append _ _ _ more stale
      (ap (λ n. drop (suc n) (name ++ (0 ∷ (value ++ (0 ∷ (more ++ stale))))))
          (line_size name value b'=' ∙ sym (line_size name value 0))
        ∙ cut_tail name value (more ++ stale))
      (omega (arith, length-append (name ++ (b'=' ∷ value)) (b'\n' ∷ more)))

read_field_lem :
    (f : Fields) (all name value : List ℕ) (b : Buffer) (p v size : ℕ)
    → cstring all ≡ some name
    → cstring (drop (suc v) all) ≡ some value
    → shift (suc p) all size ≡ b
    → read_field f all p v size ≡ done (keep_field f name value, b)
unfolding read_field
read_field_lem f all name value b p v size e g h = rw (e, read_field, g, h) refl

-- A line is taken, and the buffer is what follows it.
take_field-line :
    (f : Fields) (name value more stale : List ℕ)
    → IsAttribute (name, value)
    → take_field f
        (record { live = (name ++ (b'=' ∷ value)) ++ (b'\n' ∷ more); stale = stale })
        (length (name ++ (b'=' ∷ value)))
        (length name)
      ≡ done
          (keep_field f name value, record { live = more; stale = left_over name value more stale })
unfolding take_field
take_field-line f name value more stale h =
    let p : ℕ = length (name ++ (b'=' ∷ value)) in
    let size : ℕ = length ((name ++ (b'=' ∷ value)) ++ (b'\n' ∷ more)) in
    let tail : List ℕ = value ++ (0 ∷ (more ++ stale)) in
    ap (λ (xs : List ℕ). read_field f (set (set xs p 0) (length name) 0) p (length name) size)
      (append_assoc (name ++ (b'=' ∷ value)) (b'\n' ∷ more) stale)
    ∙ ap (λ (xs : List ℕ). read_field f xs p (length name) size)
        (cut_bytes name value (more ++ stale) b'=' b'\n')
    ∙ read_field_lem f (name ++ (0 ∷ tail)) name value _ p (length name) size
        (cstring-append name tail h.name_text)
        (ap cstring (drop_next name tail) ∙ cstring-append value (more ++ stale) h.value_text)
        (shift-line name value more stale)

-- What a pass over a request leaves: its attributes kept, and the buffer at what follows it.
pub record IsHeard (f : Fields) (rest : List ℕ) (r : Scan) : Type 0 where
  pub stale : List ℕ
  pub found : r ≡ ended f (record { live = rest; stale = stale })

scan_next :
    (fuel : ℕ) (f f' : Fields) (b b' : Buffer) (p v : ℕ)
    → memchr b'\n' b.live ≡ some (suc p)
    → memchr b'=' b.live ≡ some v
    → take_field f b (suc p) v ≡ done (f', b')
    → scan (suc fuel) f b ≡ scan fuel f' b'
unfolding scan
scan_next fuel f f' b b' p v e g h = rw (e, scan, g, h) refl

line-Lacks :
    (name value : List ℕ)
    → Lacks b'\n' name
    → Lacks b'\n' value
    → Lacks b'\n' (name ++ (b'=' ∷ value))
line-Lacks name value h k = All-append (λ x. (x == b'\n') ≡ false) name (b'=' ∷ value) h (refl, k)

scan-render :
    (fuel : ℕ) (f : Fields) (attrs : List (List ℕ × List ℕ)) (rest stale : List ℕ)
    → All IsAttribute attrs
    → length attrs < fuel
    → Returns
        (scan fuel f (record { live = render attrs rest; stale = stale }))
        (IsHeard (kept f attrs) rest)
unfolding scan render kept
scan-render zero f attrs rest stale h k = absurd (omega arith)
scan-render (suc fuel) f [] rest stale h k = record {
  stale = drop (length rest) (b'\n' ∷ (rest ++ stale));
  found =
      ap (ended f) (
        shift-append 1 (suc (length rest)) (b'\n' ∷ (rest ++ stale)) rest stale refl (omega arith));
}
scan-render (suc fuel) f ((name, value) ∷ attrs) rest stale h k =
    let line : List ℕ = name ++ (b'=' ∷ value) in
    let more = render attrs rest in
    subst (λ r. Returns r (IsHeard (kept (keep_field f name value) attrs) rest))
      (sym (
        scan_next fuel f (keep_field f name value)
          (record { live = line ++ (b'\n' ∷ more); stale = stale })
          (record { live = more; stale = left_over name value more stale })
          (length name + length value) (length name)
          (memchr-append b'\n' line more (line-Lacks name value h.0.name_line h.0.value_line)
            ∙ ap some (line_size name value b'='))
          (ap (memchr b'=') (append_assoc name (b'=' ∷ value) (b'\n' ∷ more))
            ∙ memchr-append b'=' name (value ++ (b'\n' ∷ more)) h.0.name_plain)
          (subst
            (λ n.
              take_field f (record { live = line ++ (b'\n' ∷ more); stale = stale }) n (length name)
              ≡ done (
                keep_field f name value,
                record { live = more; stale = left_over name value more stale },
              ))
            (line_size name value b'=') (take_field-line f name value more stale h.0))))
      (scan-render fuel (keep_field f name value) attrs rest (left_over name value more stale) h.1
        (omega arith))

length-render :
    (attrs : List (List ℕ × List ℕ)) (rest : List ℕ) → length attrs < length (render attrs rest)
unfolding render
length-render [] rest = omega arith
length-render (a ∷ attrs) rest = omega (
  arith,
  length-append (a.0 ++ (b'=' ∷ a.1)) (b'\n' ∷ render attrs rest),
  length-render attrs rest,
)

-- What is known of a request once it is heard.
pub record IsTaken (f : Fields) (rest : List ℕ) (input : List Input) (r : Heard) : Type 0 where
  pub stale : List ℕ
  pub found : r ≡ asked f (record { live = rest; stale = stale }) input

-- A request of attributes that Postfix writes, read at once and no longer than the buffer, is heard
-- in full: each variable is the value of its last attribute, or empty, and the buffer is left at
-- what follows the request. So is one that an earlier read has left in the buffer.
pub hear_request-render :
    (attrs : List (List ℕ × List ℕ)) (rest stale : List ℕ) (input : List Input)
    → All IsAttribute attrs
    → length (render attrs rest) ≤ buffer_size
    → Returns
        (hear_request true
          (record { live = []; stale = stale })
          (bytes (render attrs rest) ∷ input))
        (IsTaken (kept no_fields attrs) rest input)
      × Returns
          (hear_request false (record { live = render attrs rest; stale = stale }) input)
          (IsTaken (kept no_fields attrs) rest input)
unfolding hear_request refill is_empty
hear_request-render attrs rest stale input h k = (
  rw
      (
        not_empty (render attrs rest) (omega (arith, length-render attrs rest)),
        le→leb (0 + length (render attrs rest)) buffer_size (omega arith),
      )
      (Returns-bind
        (scan (suc (0 + length (render attrs rest))) no_fields
          (record { live = render attrs rest; stale = drop (length (render attrs rest)) stale }))
        (next input) _ (IsTaken (kept no_fields attrs) rest input)
        (scan-render (suc (0 + length (render attrs rest))) no_fields attrs rest
          (drop (length (render attrs rest)) stale) h (omega (arith, length-render attrs rest)))
        (λ r w. taken input r w)),
  Returns-bind
      (scan (suc (length (render attrs rest))) no_fields
        (record { live = render attrs rest; stale = stale }))
      (next input) _ (IsTaken (kept no_fields attrs) rest input)
      (scan-render (suc (length (render attrs rest))) no_fields attrs rest stale h
        (omega (arith, length-render attrs rest)))
      (λ r w. taken input r w),
)
  where
    not_empty : (xs : List ℕ) → 0 < length xs → is_empty xs ≡ false
    not_empty [] h = absurd (omega arith)
    not_empty (x ∷ xs) h = refl

    next : List Input → Scan → Run Heard
    next is r = elim r [
      | malformed ↦ done stopped
      | ended f' b' ↦ done (asked f' b' is)
      | partial f' b' ↦ refill f' b' is
    ]

    taken :
        (is : List Input) (r : Scan)
        → IsHeard (kept no_fields attrs) rest r
        → Returns (next is r) (IsTaken (kept no_fields attrs) rest is)
    taken is r w = rw w.found (record { stale = w.stale; found = refl })

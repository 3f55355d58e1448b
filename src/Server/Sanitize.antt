-- ===== src/Server/Sanitize.antt =====
-- `greylist_sanitize_req` of server/gld.c makes whole tuples.
use x_grey.Prelude.{
  ℕ, zero, suc, ◌+◌, ◌-◌, ◌≤◌, ◌≡◌, refl, Option, none, some, false, not, ◌&&◌, List, min, arith,
  length, length-append, length-take, length-drop, replicate, take, drop, Bool-cases, inl, inr,
  ◌==◌, ltb,
}
use x_grey.Tuple.{Tuple}
use x_grey.Tuple.Key.{IsTuple}
use x_grey.Server.Packet.{
  Request, greylist_sanitize_req, copy_in, ipsize_of, fromsize_of, tosize_of, data_at,
}

-- What is made, if anything is, satisfies `P`.
abbrev pub OnSome {ℓ} : {A : Type ℓ} → (A → Type 0) → Option A → Type 0
OnSome P none = Unit
OnSome P (some x) = P x

-- A tuple that the rest of the server may work with.
pub record IsWhole (t : Tuple) : Type 0 where
  pub tuple : IsTuple t
  pub pad : t.pad ≡ 0xDECAFBAD
  pub unflagged : t.f.remove ≡ false

length-replicate : (n x : ℕ) → length (replicate n x) ≡ n
length-replicate zero x = refl
length-replicate (suc n) x = omega (arith, length-replicate n x)

length-copy_in :
    (buffer : List ℕ) (off n room : ℕ)
    → off + n ≤ length buffer
    → n ≤ room
    → length (copy_in buffer off n room) ≡ room
unfolding copy_in
length-copy_in buffer off n room h k = omega (
  arith,
  length-append (take n (drop off buffer)) (replicate (room - n) 0),
  length-take n (drop off buffer),
  length-drop off buffer,
  length-replicate (room - n) 0,
)

address_sizes : (n : ℕ) → (not (n == 4) && not (n == 16)) ≡ false → n ≤ 16
address_sizes n h = ground arith

not_lt : (a b : ℕ) → ltb a b ≡ false → b ≤ a
not_lt a b h = ground arith

-- With a datagram that fits the receive buffer, the tuple made is whole: its arrays have their
-- sizes and its texts end within them.
pub greylist_sanitize_req-IsWhole :
    (r : Request) → r.size ≤ length r.buffer → OnSome IsWhole (greylist_sanitize_req r)
unfolding greylist_sanitize_req
greylist_sanitize_req-IsWhole r h =
    let ips = ipsize_of r in
    let froms = fromsize_of r in
    let tos = tosize_of r in
    elim (Bool-cases (not (ips == 4) && not (ips == 16))) [
      | inl e ↦ rw e tt
      | inr e ↦
          let short : ips ≤ 16 = address_sizes ips e in
          rw e (elim (Bool-cases (ltb r.size (ips + froms + tos + data_at))) [
            | inl g ↦ rw g tt
            | inr g ↦
                let inside : ips + froms + tos + data_at ≤ r.size = not_lt _ _ g in
                rw g (record {
                  tuple = record {
                    ip_length = length-copy_in r.buffer data_at ips 16 (omega arith) short;
                    from_length =
                        length-copy_in r.buffer (data_at + ips) (min 107 froms) 108 (omega arith)
                          (omega arith);
                    to_length =
                        length-copy_in r.buffer (data_at + ips + froms) (min 107 tos) 108
                          (omega arith) (omega arith);
                    from_fits = omega arith;
                    to_fits = omega arith;
                  };
                  pad = refl;
                  unflagged = refl;
                })
          ])
    ]

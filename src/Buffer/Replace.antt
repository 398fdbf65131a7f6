-- ===== src/Buffer/Replace.antt =====
-- `set`: what a buffer holds is replaced, as a received message is copied into a request.
use swift_snails.Base.{
  ℕ, ◌+◌, ◌≡◌, ◌≤◌, ◌<◌, refl, ap, ◌∙◌, List, some, length, arith, Returns, ltb, Bool-cases, inl,
  inr, take,
}
use swift_snails.Buffer.{Buffer, reserve, set}
use swift_snails.Buffer.Contents.{
  Holds, copied, copy_in-copied, length-copied, take-copied, regrow-Holds,
}

reserve-Holds :
    {stored rest : List ℕ} (n : ℕ) (b : Buffer)
    → Holds stored rest b
    → 0 < n
    → Returns (reserve n b) λ c. Holds stored rest c × (n ≤ c.capacity)
unfolding reserve
reserve-Holds n b h pos = elim (Bool-cases (ltb b.capacity n)) [
  | inl over ↦
      let (c, run, (held, end, cap)) = regrow-Holds n b h (ground arith) in
      (c, ground arith, (held, omega arith))
  | inr fits ↦ (b, ground arith, (h, ground arith))
]

overwrite-Holds :
    {stored rest : List ℕ} (bytes : List ℕ) (b : Buffer) (h : Holds stored rest b)
    → length bytes ≤ b.capacity
    → Holds bytes bytes
        (record b { block = some (copied h.bytes 0 bytes); cursor = 0; end = length bytes })
overwrite-Holds bytes b h room = record {
  bytes = copied h.bytes 0 bytes;
  valid = record {
    owned = refl;
    sized = length-copied h.bytes 0 bytes fits ∙ h.valid.sized;
    readable = omega arith;
    fits = room;
    roomy = h.valid.roomy;
  };
  written = front;
  unread = front;
}
  where
    fits : 0 + length bytes ≤ length h.bytes
    fits = omega arith

    front : take (length bytes) (copied h.bytes 0 bytes) ≡ bytes
    front =
        ap (λ n. take n (copied h.bytes 0 bytes)) (omega arith) ∙ take-copied h.bytes 0 bytes fits

-- A set() with at least one byte leaves exactly those bytes in the buffer, all of them unread.
pub set-Holds :
    {stored rest : List ℕ} (bytes : List ℕ) (b : Buffer)
    → Holds stored rest b
    → 0 < length bytes
    → Returns (set bytes b) (Holds bytes bytes)
unfolding set
set-Holds bytes b h pos =
    let (c, run, (held, room)) = reserve-Holds (length bytes) b h pos in
    (
      record c { block = some (copied held.bytes 0 bytes); cursor = 0; end = length bytes },
      ground (arith, run, held.valid.owned, copy_in-copied held.bytes 0 bytes (omega arith)),
      overwrite-Holds bytes c held room,
    )

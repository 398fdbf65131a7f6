-- ===== src/Buffer/Contents.antt =====
-- What a buffer holds, as lists: the bytes written so far and the bytes not yet read.
use swift_snails.Base.{
  ℕ, ◌+◌, ◌*◌, ◌≡◌, ◌≤◌, ◌<◌, refl, sym, ap, ◌∙◌, false, List, [], ◌++◌, some, ok, ltb,
  if◌then◌else◌, length, take, drop, replicate, arith, Returns, length-append, length-take,
  length-drop, length-replicate, take-append_length, drop-append_length, drop-append_le, drop-add,
  drop-eq-append, append_assoc, inl, inr, Bool-cases,
}
use swift_snails.Buffer.{
  Buffer, new, default_capacity, copy_in, copy_out, read_finished, reserve, regrow, append, put_raw,
  get_raw,
}

-- The block is there and as long as `_capacity` says, the cursor is not past the end, the end not
-- past the block, and one doubling makes room for any basic type.
pub record IsValid (b : Buffer) (bytes : List ℕ) : Type 0 where
  pub owned : b.block ≡ some bytes
  pub sized : length bytes ≡ b.capacity
  pub readable : b.cursor ≤ b.end
  pub fits : b.end ≤ b.capacity
  pub roomy : 8 ≤ b.capacity

-- The buffer holds `stored`, and the cursor stands before `rest`.
pub record Holds (stored rest : List ℕ) (b : Buffer) : Type 0 where
  pub bytes : List ℕ
  pub valid : IsValid b bytes
  pub written : take b.end bytes ≡ stored
  pub unread : drop b.cursor (take b.end bytes) ≡ rest

pub cursor-end :
    {stored rest : List ℕ} (b : Buffer) → Holds stored rest b → b.cursor + length rest ≡ b.end
cursor-end b h = omega (
  arith,
  ap length h.unread,
  length-drop b.cursor (take b.end h.bytes),
  length-take b.end h.bytes,
)

pub copied : List ℕ → ℕ → List ℕ → List ℕ
copied dst at bytes = take at dst ++ (bytes ++ drop (at + length bytes) dst)

module _ (dst : List ℕ) (at : ℕ) (bytes : List ℕ) (room : at + length bytes ≤ length dst) where
  pub copy_in-copied : copy_in dst at bytes ≡ ok (copied dst at bytes)
  unfolding copy_in copied
  copy_in-copied = ground arith

  pub length-copied : length (copied dst at bytes) ≡ length dst
  unfolding copied
  length-copied = omega (
    arith,
    length-append (take at dst) (bytes ++ drop (at + length bytes) dst),
    length-append bytes (drop (at + length bytes) dst),
    length-take at dst,
    length-drop (at + length bytes) dst,
  )

  pub take-copied : take (at + length bytes) (copied dst at bytes) ≡ take at dst ++ bytes
  unfolding copied
  take-copied =
      let front = take at dst ++ bytes in
      let len : length front ≡ at + length bytes =
        omega (arith, length-append (take at dst) bytes, length-take at dst) in
      rw (← append_assoc) (take-append_length front _ _ len)

copy_out-take : (src : List ℕ) (n : ℕ) → n ≤ length src → copy_out src 0 n ≡ ok (take n src)
unfolding copy_out
copy_out-take src n h = ground arith

copy_out-drop :
    (src : List ℕ) (at : ℕ) (bytes rest : List ℕ)
    → drop at src ≡ bytes ++ rest
    → at + length bytes ≤ length src
    → copy_out src at (length bytes) ≡ ok bytes
unfolding copy_out
copy_out-drop src at bytes rest e h =
    ground (arith, ap (take (length bytes)) e, take-append_length bytes rest (length bytes) refl)

-- The block that `reserve` builds begins with the data.
pub regrow-Holds :
    {stored rest : List ℕ} (newcap : ℕ) (b : Buffer)
    → Holds stored rest b
    → b.capacity ≤ newcap
    → Returns (regrow newcap b) λ c. Holds stored rest c × (c.end ≡ b.end) × (c.capacity ≡ newcap)
unfolding regrow
regrow-Holds {stored} {rest} newcap b h le = (
  record b { block = some grown; capacity = newcap },
  rw (h.valid.owned, copy_out-take h.bytes b.end end_le, copy_in-copied zeros 0 kept room),
  (
    record {
      bytes = grown;
      valid = record {
        owned = refl;
        sized = omega (arith, zeros_len, length-copied zeros 0 kept room);
        readable = h.valid.readable;
        fits = omega arith;
        roomy = omega arith;
      };
      written = front ∙ h.written;
      unread = ap (drop b.cursor) front ∙ h.unread;
    },
    refl,
    refl,
  ),
)
  where
    kept : List ℕ
    kept = take b.end h.bytes

    zeros : List ℕ
    zeros = replicate newcap 0

    grown : List ℕ
    grown = copied zeros 0 kept

    end_le : b.end ≤ length h.bytes
    end_le = omega arith

    zeros_len : length zeros ≡ newcap
    zeros_len = length-replicate newcap 0

    kept_len : length kept ≡ b.end
    kept_len = omega (arith, length-take b.end h.bytes)

    room : 0 + length kept ≤ length zeros
    room = omega (arith, zeros_len, kept_len)

    front : take b.end grown ≡ kept
    front = ap (λ n. take n grown) (omega (arith, kept_len)) ∙ take-copied zeros 0 kept room

pub make_room-Holds :
    {stored rest : List ℕ} (n : ℕ) (b : Buffer)
    → Holds stored rest b
    → b.end + n ≤ 2 * b.capacity
    → Returns
        (if ltb b.capacity (b.end + n) then reserve (2 * b.capacity) b else ok b)
        λ c. Holds stored rest c × (c.end + n ≤ c.capacity)
unfolding reserve
make_room-Holds n b h small = elim (Bool-cases (ltb b.capacity (b.end + n))) [
  | inl over ↦
      let (c, run, (held, end, cap)) = regrow-Holds (2 * b.capacity) b h (omega arith) in
      (c, ground arith, (held, omega arith))
  | inr fits ↦ (b, rw fits, (h, ground arith))
]

pub append-Holds :
    (stored rest bytes : List ℕ) (b : Buffer)
    → Holds stored rest b
    → b.end + length bytes ≤ b.capacity
    → Returns (append bytes b) (Holds (stored ++ bytes) (rest ++ bytes))
unfolding append
append-Holds stored rest bytes b h room = (
  record b { block = some longer; end = b.end + length bytes },
  rw (h.valid.owned, copy_in-copied h.bytes b.end bytes fits),
  record {
    bytes = longer;
    valid = record {
      owned = refl;
      sized = length-copied h.bytes b.end bytes fits ∙ h.valid.sized;
      readable = omega arith;
      fits = room;
      roomy = h.valid.roomy;
    };
    written = front;
    unread = ap (drop b.cursor) front ∙ behind;
  },
)
  where
    longer : List ℕ
    longer = copied h.bytes b.end bytes

    fits : b.end + length bytes ≤ length h.bytes
    fits = omega arith

    front : take (b.end + length bytes) longer ≡ stored ++ bytes
    front = take-copied h.bytes b.end bytes fits ∙ ap (λ s. s ++ bytes) h.written

    stored_len : length stored ≡ b.end
    stored_len = omega (arith, ap length h.written, length-take b.end h.bytes)

    behind : drop b.cursor (stored ++ bytes) ≡ rest ++ bytes
    behind =
        drop-append_le b.cursor stored bytes (omega (arith, stored_len))
        ∙ ap (λ s. drop b.cursor s ++ bytes) (sym h.written)
        ∙ ap (λ s. s ++ bytes) h.unread

pub put_raw-Holds :
    (stored rest bytes : List ℕ) (b : Buffer)
    → Holds stored rest b
    → length bytes ≤ 8
    → Returns (put_raw bytes b) (Holds (stored ++ bytes) (rest ++ bytes))
unfolding put_raw
put_raw-Holds stored rest bytes b h small =
    let (c, run, (held, room)) = make_room-Holds (length bytes) b h (omega arith) in
    rw run (append-Holds stored rest bytes c held room)

pub get_raw-Holds :
    (stored bytes rest : List ℕ) (b : Buffer)
    → Holds stored (bytes ++ rest) b
    → 0 < length bytes
    → Returns (get_raw (length bytes) b) λ r. (r.0 ≡ bytes) × Holds stored rest r.1
unfolding get_raw
get_raw-Holds stored bytes rest b h pos = (
  (bytes, record b { cursor = b.cursor + length bytes }),
  rw (unfinished, h.valid.owned, copy_out-drop h.bytes b.cursor bytes _ ahead (omega (arith, len))),
  (
    refl,
    record {
      bytes = h.bytes;
      valid = record {
        owned = h.valid.owned;
        sized = h.valid.sized;
        readable = omega (arith, len);
        fits = h.valid.fits;
        roomy = h.valid.roomy;
      };
      written = h.written;
      unread =
          drop-add b.cursor (length bytes) _
          ∙ ap (drop (length bytes)) h.unread
          ∙ drop-append_length bytes rest (length bytes) refl;
    },
  ),
)
  where
    len : b.cursor + length bytes + length rest ≡ b.end
    len = omega (arith, cursor-end b h, length-append bytes rest)

    unfinished : read_finished b ≡ ok false
    unfinished = unfold read_finished in ground (arith, len)

    ahead : drop b.cursor h.bytes ≡ bytes ++ (rest ++ drop b.end h.bytes)
    ahead =
        drop-eq-append b.cursor b.end h.bytes h.valid.readable
        ∙ ap (λ s. s ++ drop b.end h.bytes) h.unread
        ∙ append_assoc bytes rest (drop b.end h.bytes)

pub new-Holds : Holds [] [] new
unfolding new
new-Holds = record {
  bytes = replicate default_capacity 0;
  valid = record {
    owned = refl;
    sized = length-replicate {A = ℕ} default_capacity 0;
    readable = omega arith;
    fits = omega arith;
    roomy = omega arith;
  };
  written = refl;
  unread = refl;
}

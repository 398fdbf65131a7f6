-- ===== src/HashFrag/Wire.antt =====
-- What the master sends of the table and a node reads.
use swift_snails.Base.{
  length-append, ℕ, ◌^◌, ◌≡◌, ◌<◌, ◌≢◌, true, ◌⊎◌, inl, inr, refl, List, [], ◌∷◌, ◌++◌, none, some,
  ok, abort, check_failed, ◌>>=◌, length, arith, Returns, All, append-nil, append_assoc,
}
use swift_snails.Buffer.{Buffer}
use swift_snails.Buffer.Contents.{Holds}
use swift_snails.Buffer.Words.{le_bytes, length-le_bytes, put_word-Holds, get_word-Holds}
use swift_snails.HashFrag.{
  HashFrag, put_table, get_table, serialize, deserialize, same_size, new_size,
}

abbrev pub Fits32 : List ℕ → Type 0
Fits32 = All (λ id. id < 256 ^ 4)

abbrev pub table_wire : List ℕ → List ℕ
table_wire [] = []
table_wire (id ∷ ids) = le_bytes 4 id ++ table_wire ids

put_table-Holds :
    (ids : List ℕ) {stored rest : List ℕ} (b : Buffer)
    → Holds stored rest b
    → Returns (put_table ids b) (Holds (stored ++ table_wire ids) (rest ++ table_wire ids))
unfolding put_table
put_table-Holds [] {stored} {rest} b h = (b, refl, rw (append-nil stored, append-nil rest) h)
put_table-Holds (id ∷ ids) {stored} {rest} b h =
    let (c, run, held) = put_word-Holds 4 id b h (omega arith) in
    let (d, runs, held') = put_table-Holds ids c held in
    (
      d,
      rw (run, ◌>>=◌) runs,
      rw (append_assoc stored (le_bytes 4 id), append_assoc rest (le_bytes 4 id)) at held',
    )

get_table-Holds :
    (ids : List ℕ) {stored rest : List ℕ} (b : Buffer)
    → Holds stored (table_wire ids ++ rest) b
    → Fits32 ids
    → Returns (get_table (length ids) b) λ r. (r.0 ≡ ids) × Holds stored rest r.1
unfolding get_table
get_table-Holds [] b h _ = (([], b), refl, (refl, h))
get_table-Holds (id ∷ ids) b h (fit, fits) =
    let (r, run, (x, held)) = get_word-Holds 4 id b (rw append_assoc at h) (omega arith) fit in
    let (s, runs, (xs, held')) = get_table-Holds ids r.1 held fits in
    ((r.0 ∷ s.0, s.1), rw (run, ◌>>=◌, runs), (cc, held'))

-- A table that can be sent: as many entries as it says, at least one, in numbers of 32 bits.
pub record IsSendable (h : HashFrag) (t : List ℕ) : Type 0 where
  pub present : h.map_table ≡ some t
  pub sized : length t ≡ h.frags
  pub some_frag : 0 < h.frags
  pub frags_fit : h.frags < 256 ^ 4
  pub nodes_fit : h.nodes < 256 ^ 4
  pub ids_fit : Fits32 t

pub frag_wire : HashFrag → List ℕ → List ℕ
frag_wire h t = le_bytes 4 h.nodes ++ (le_bytes 4 h.frags ++ table_wire t)

pub serialize-Holds :
    (h : HashFrag) (t : List ℕ) {stored : List ℕ} (b : Buffer)
    → IsSendable h t
    → Holds stored [] b
    → Returns (serialize h b) (Holds (stored ++ frag_wire h t) (frag_wire h t))
unfolding serialize frag_wire
serialize-Holds h t {stored} b v held =
    let (b₁, run₁, held₁) = put_word-Holds 4 h.nodes b held (omega arith) in
    let (b₂, run₂, held₂) = put_word-Holds 4 h.frags b₁ held₁ (omega arith) in
    let (b₃, run₃, held₃) = put_table-Holds t b₂ held₂ in
    (
      b₃,
      ground (arith, run₁, run₂, run₃, v.present, v.some_frag),
      rw
          (
            append_assoc,
            append_assoc (le_bytes 4 h.nodes) (le_bytes 4 h.frags) (table_wire t),
            append_assoc,
          )
          at held₃,
    )

pub some_frag_wire : (h : HashFrag) (t : List ℕ) → 0 < length (frag_wire h t)
unfolding frag_wire
some_frag_wire h t = omega (
  arith,
  length-le_bytes 4 h.nodes,
  length-append (le_bytes 4 h.nodes) (le_bytes 4 h.frags ++ table_wire t),
)

-- A node that may read the table: it has none yet, or one of the same size.
abbrev pub Accepts : ℕ → HashFrag → Type 0
Accepts n h =
    ((h.frags ≡ 0) × (h.map_table ≡ none))
    ⊎ ((h.frags ≡ n) × ((t : List ℕ) × (h.map_table ≡ some t)))

same_size-Accepts : (n : ℕ) (h : HashFrag) → 0 < n → Accepts n h → same_size n h ≡ ok true
unfolding same_size
same_size-Accepts n h pos (inl (e, nothing)) = rw (nothing, same_size)
same_size-Accepts n h pos (inr (e, (t, there))) = ground arith

new_size-Accepts : (n : ℕ) (h : HashFrag) → 0 < n → Accepts n h → new_size n h ≡ ok n
unfolding new_size
new_size-Accepts n h pos (inl (e, nothing)) = ground arith
new_size-Accepts n h pos (inr (e, (t, there))) = ground arith

pub deserialize-Holds :
    (h node : HashFrag) (t : List ℕ) {stored : List ℕ} (b : Buffer)
    → IsSendable h t
    → Accepts h.frags node
    → Holds stored (frag_wire h t) b
    → Returns (deserialize b node) λ r. (r.0 ≡ h) × Holds stored [] r.1
unfolding deserialize frag_wire
deserialize-Holds h node t {stored} b v accepts held =
    let (r₁, run₁, (x₁, held₁)) = get_word-Holds 4 h.nodes b held (omega arith) v.nodes_fit in
    let (r₂, run₂, (x₂, held₂)) = get_word-Holds 4 h.frags r₁.1 held₁ (omega arith) v.frags_fit in
    let held' : Holds stored (table_wire t ++ []) r₂.1 = rw (append-nil (table_wire t)) held₂ in
    let (r₃, run₃, (x₃, held₃)) = get_table-Holds t r₂.1 held' v.ids_fit in
    (
      (record { nodes = r₁.0; frags = h.frags; map_table = some r₃.0 }, r₃.1),
      ground (
        arith,
        run₁,
        run₂,
        run₃,
        v.sized,
        v.some_frag,
        same_size-Accepts h.frags node v.some_frag accepts,
        new_size-Accepts h.frags node v.some_frag accepts,
      ),
      (ground (arith, x₁, x₃, v.present), held₃),
    )

-- What the master serializes into a buffer with nothing unread, a node with no table or one of that
-- size deserializes to the same number of nodes, number of fragments and table; nothing stays unread.
pub deserialize-serialize :
    (h node : HashFrag) (t : List ℕ) {stored : List ℕ} (b : Buffer)
    → IsSendable h t
    → Accepts h.frags node
    → Holds stored [] b
    → Returns
        (serialize h b >>= λ b'. deserialize b' node)
        λ r. (r.0 ≡ h) × Holds (stored ++ frag_wire h t) [] r.1
deserialize-serialize h node t b v accepts held =
    let (c, run, held') = serialize-Holds h t b v held in
    rw (run, ◌>>=◌) (deserialize-Holds h node t c v accepts held')

-- A node that has a table of another size refuses the message.
pub deserialize-other_size :
    (h node : HashFrag) (t t' : List ℕ) {stored : List ℕ} (b : Buffer)
    → IsSendable h t
    → Holds stored (frag_wire h t) b
    → node.map_table ≡ some t'
    → 0 < node.frags
    → node.frags ≢ h.frags
    → deserialize b node ≡ abort check_failed
unfolding deserialize frag_wire same_size
deserialize-other_size h node t t' {stored} b v held there pos other =
    let (r₁, run₁, (x₁, held₁)) = get_word-Holds 4 h.nodes b held (omega arith) v.nodes_fit in
    let (r₂, run₂, (x₂, held₂)) = get_word-Holds 4 h.frags r₁.1 held₁ (omega arith) v.frags_fit in
    ground (arith, run₁, run₂, x₂, v.some_frag)

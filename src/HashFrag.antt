-- ===== src/HashFrag.antt =====
-- core/parameter/hashfrag.h, `BasicHashFrag`: the table that maps each hash fragment to the id of the
-- server that keeps it. The master builds it by `init` and sends it to the nodes, which read it by
-- `deserialize`. `frag_num` of the configuration is an argument of `init`; an `int` is its value, and
-- the negative ones, which `num_frags()` refuses like 0, are left out.
pub mod Fragments
pub mod Routing
pub mod Wire
mod Tests
use swift_snails.Base.{
  ℕ, zero, suc, ◌+◌, ◌/◌, ◌%◌, List, [], ◌∷◌, Option, none, some, Result, ok, abort, check, guard,
  or_abort, check_failed, division_by_zero, out_of_bounds, ◌>>=◌, ◌>>◌, ltb, ◌==◌, if◌then◌else◌,
  get_elem?, not, set, replicate, Bool, true, false, ◌||◌, ◌&&◌,
}
use swift_snails.Hash.{get_hash_code}
use swift_snails.Buffer.{Buffer}
use swift_snails.Buffer.Words.{put_word, get_word}

pub record HashFrag : Type 0 where
  pub nodes : ℕ
  pub frags : ℕ
  pub map_table : Option (List ℕ)

unfoldable pub empty : HashFrag
empty = record { nodes = 0; frags = 0; map_table = none }

unfoldable pub set_num_nodes : ℕ → HashFrag → Result HashFrag
set_num_nodes x h = do check (ltb 0 x); ok (record h { nodes = x })

-- num_frags(), with its CHECK
unfoldable pub num_frags : HashFrag → Result ℕ
num_frags h = do check (ltb 0 h.frags); ok h.frags

-- the id of fragment i in `init`, `each` fragments to a node
unfoldable pub frag_owner : ℕ → ℕ → ℕ → ℕ
frag_owner nodes each i =
    let id = i / each + 1 in
    let id' = if ltb id 1 then 1 else id in if ltb nodes id' then nodes else id'

-- the loop of `init`, with the number of rounds left and the index; `i / 0` stops the process
unfoldable pub fill : ℕ → ℕ → ℕ → ℕ → Result (List ℕ)
fill nodes each zero i = ok []
fill nodes each (suc n) i = do
  guard (ltb 0 each) division_by_zero
  rest ← fill nodes each n (i + 1)
  ok (frag_owner nodes each i ∷ rest)

unfoldable pub init : ℕ → HashFrag → Result HashFrag
unfolding num_frags
init frag_num h = do
  check (ltb 0 h.nodes)
  let h' = record h { frags = frag_num }
  n ← num_frags h'
  table ← fill h.nodes (n / h.nodes) n 0
  ok (record h' { map_table = some table })

unfoldable pub to_node_id : ℕ → HashFrag → Result ℕ
unfolding num_frags
to_node_id key h = do
  table ← or_abort h.map_table check_failed
  n ← num_frags h
  or_abort (get_elem? table (get_hash_code key % n)) out_of_bounds

-- the loop of `serialize`: bb << _map_table[i]
pub put_table : List ℕ → Buffer → Result Buffer
put_table [] b = ok b
put_table (id ∷ ids) b = do b' ← put_word 4 id b; put_table ids b'

unfoldable pub serialize : HashFrag → Buffer → Result Buffer
unfolding num_frags put_table
serialize h b = do
  b₁ ← put_word 4 h.nodes b
  n ← num_frags h
  b₂ ← put_word 4 n b₁
  table ← or_abort h.map_table out_of_bounds
  put_table table b₂

-- the loop of `deserialize`: bb >> _map_table[i]
pub get_table : ℕ → Buffer → Result (List ℕ × Buffer)
get_table zero b = ok ([], b)
get_table (suc n) b = do (id, b') ← get_word 4 b; (ids, b'') ← get_table n b'; ok (id ∷ ids, b'')

-- CHECK((_map_table && (num_frags_ == num_frags())) || (!_map_table))
unfoldable pub same_size : ℕ → HashFrag → Result Bool
unfolding num_frags
same_size n h = elim h.map_table [ none ↦ ok true | some _ ↦ do m ← num_frags h; ok (n == m) ]

-- `if (_num_frags == 0)`: the table is made once
new_size : ℕ → HashFrag → Result ℕ
new_size n h =
    if h.frags == 0
    then elim h.map_table [ none ↦ ok n | some _ ↦ abort check_failed ]
    else ok h.frags

unfoldable pub deserialize : Buffer → HashFrag → Result (HashFrag × Buffer)
unfolding num_frags get_table same_size new_size
deserialize b h = do
  (nodes, b₁) ← get_word 4 b
  (n, b₂) ← get_word 4 b₁
  check (ltb 0 n)
  same ← same_size n h
  check same
  frags ← new_size n h
  (ids, b₃) ← get_table frags b₂
  ok (record { nodes = nodes; frags = frags; map_table = some ids }, b₃)

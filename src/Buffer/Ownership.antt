-- ===== src/Buffer/Ownership.antt =====
-- utils/Buffer.h: who frees the block. Here a block is known by its address, and the heap is the list of
-- the addresses that are in use: a move constructor takes the block over, the move assignment copies
-- the pointer.
pub mod Twice
use swift_snails.Base.{
  ℕ, List, [], ◌∷◌, Option, none, some, Result, ok, abort, ◌>>=◌, double_free, ◌==◌, Bool, true,
  false, if◌then◌else◌, ◌||◌,
}

-- the fields of a BasicBuffer, with the address of its block
pub record Owner : Type 0 where
  pub address : Option ℕ
  pub cursor : ℕ
  pub end : ℕ
  pub capacity : ℕ

abbrev pub live : ℕ → List ℕ → Bool
live a [] = false
live a (b ∷ heap) = (a == b) || live a heap

abbrev pub remove_block : ℕ → List ℕ → List ℕ
remove_block a [] = []
remove_block a (b ∷ heap) = let rest = remove_block a heap in if a == b then rest else b ∷ rest

-- delete _buffer
unfoldable pub release : ℕ → List ℕ → Result (List ℕ)
release a heap = if live a heap then ok (remove_block a heap) else abort double_free

-- free()
unfoldable pub free_block : Owner → List ℕ → Result (Owner × List ℕ)
free_block o heap = elim o.address [
  | none ↦ ok (o, heap)
  | some a ↦ do heap' ← release a heap; ok (record o { address = none; capacity = 0 }, heap')
]

-- clear(), where the pointers are offsets
unfoldable pub clear_owner : Owner → Owner
clear_owner o = record o { cursor = 0; end = 0 }

-- BasicBuffer(BasicBuffer &&other): the new buffer, and what is left of `other`
unfoldable pub move_construct : Owner → Owner × Owner
unfolding clear_owner
move_construct other = (other, clear_owner (record other { address = none }))

-- operator=(BasicBuffer &&other), for another object: the assigned buffer and the heap
unfoldable pub move_assign : Owner → Owner → List ℕ → Result (Owner × List ℕ)
unfolding free_block clear_owner
move_assign self other heap = do
  (o, heap') ← free_block self heap
  let o' = clear_owner o
  ok (record o' { address = other.address; cursor = other.cursor; end = other.end }, heap')

-- ~BasicBuffer()
unfoldable pub destroy : Owner → List ℕ → Result (List ℕ)
unfolding free_block
destroy o heap = do (_, heap') ← free_block o heap; ok heap'

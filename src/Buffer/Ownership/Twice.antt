-- ===== src/Buffer/Ownership/Twice.antt =====
-- How often a block is freed.
use swift_snails.Base.{
  ℕ, ◌≡◌, ◌≢◌, refl, arith, List, [], ◌∷◌, none, some, ok, abort, ◌>>=◌, double_free, ◌==◌, true,
  false, if◌then◌else◌,
}
use swift_snails.Buffer.Ownership.{
  Owner, live, remove_block, release, free_block, move_construct, move_assign, destroy,
}

live-remove_block :
    (a b : ℕ) (heap : List ℕ)
    → live a (remove_block b heap) ≡ (if a == b then false else live a heap)
live-remove_block a b [] = ground arith
live-remove_block a b (c ∷ heap) = ground (arith, live-remove_block a b heap)

destroy_in_use :
    (o : Owner) (a : ℕ) (heap : List ℕ)
    → o.address ≡ some a
    → live a heap ≡ true
    → destroy o heap ≡ ok (remove_block a heap)
unfolding destroy free_block release
destroy_in_use o a heap its there = rw (destroy, free_block, its, there) refl

destroy_freed :
    (o : Owner) (a : ℕ) (heap : List ℕ)
    → o.address ≡ some a
    → live a heap ≡ false
    → destroy o heap ≡ abort double_free
unfolding destroy free_block release
destroy_freed o a heap its gone = rw (destroy, free_block, its, gone) refl

destroy_empty : (o : Owner) (heap : List ℕ) → o.address ≡ none → destroy o heap ≡ ok heap
unfolding destroy free_block
destroy_empty o heap empty = rw (destroy, free_block, empty) refl

move_assign-run :
    (self other : Owner) (a : ℕ) (heap : List ℕ)
    → self.address ≡ some a
    → live a heap ≡ true
    → move_assign self other heap ≡ ok (record other { capacity = 0 }, remove_block a heap)
unfolding move_assign free_block release
move_assign-run self other a heap mine here = rw (move_assign, free_block, mine, here) refl

-- Two buffers that own different blocks: after the move assignment of the one to the other, the
-- assigned buffer has the capacity 0 and the block of the other, which keeps it too, so the
-- destruction of both, in either order, frees that block twice. After a move construction the same
-- two destructions free it once.
pub move_assign-double_free :
    (self other : Owner) (a b : ℕ) (heap : List ℕ)
    → self.address ≡ some a
    → other.address ≡ some b
    → a ≢ b
    → live a heap ≡ true
    → live b heap ≡ true
    → ((move_assign self other heap >>= (λ p. destroy p.0 p.1 >>= destroy other))
        ≡ abort double_free)
      × ((move_assign self other heap >>= (λ p. destroy other p.1 >>= destroy p.0))
          ≡ abort double_free)
      × ((destroy (move_construct other).0 heap >>= destroy (move_construct other).1)
          ≡ ok (remove_block b heap))
      × (move_assign self other heap ≡ ok (record other { capacity = 0 }, remove_block a heap))
unfolding move_construct
move_assign-double_free self other a b heap mine its apart here there =
    let still : live b (remove_block a heap) ≡ true = ground (arith, live-remove_block b a heap) in
    let gone : live b (remove_block b (remove_block a heap)) ≡ false =
      ground (arith, live-remove_block b b (remove_block a heap)) in
    let moved = move_assign-run self other a heap mine here in
    let self' : Owner = record other { capacity = 0 } in
    (
      rw
          (
            moved,
            ◌>>=◌,
            destroy_in_use self' b (remove_block a heap) its still,
            destroy_freed other b (remove_block b (remove_block a heap)) its gone,
          )
          refl,
      rw
          (
            moved,
            ◌>>=◌,
            destroy_in_use other b (remove_block a heap) its still,
            destroy_freed self' b (remove_block b (remove_block a heap)) its gone,
          )
          refl,
      rw (destroy_in_use other b heap its there, ◌>>=◌)
          (destroy_empty (move_construct other).1 (remove_block b heap) refl),
      moved,
    )

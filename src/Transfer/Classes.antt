-- ===== src/Transfer/Classes.antt =====
-- The table of message classes.
use swift_snails.Base.{
  ℕ, ◌≡◌, refl, List, none, ok, abort, check_failed, ◌==◌, if◌then◌else◌, Returns, arith,
}
use swift_snails.Base.Map.{
  lookup, assign, erase, nat_ordered, lookup-assign, lookup-erase, lookup-assign_self,
}
use swift_snails.Transfer.{add, remove, get}

module _ {H : Type 0} (id : ℕ) (handler : H) (classes : List (ℕ × H))
    (free : lookup id classes ≡ none) where
  -- A class that is not in the table can be added once: it is then found with its handler, the other
  -- classes are as they were, a second handler for it is refused, and when it is removed each class is
  -- found as before.
  pub add-get : Returns (add id handler classes) λ classes'.
      ((j : ℕ) → get j classes' ≡ (if j == id then ok handler else get j classes))
      × ((other : H) → add id other classes' ≡ abort check_failed)
      × Returns (remove id classes') λ classes''. (j : ℕ) → get j classes'' ≡ get j classes
  unfolding add get remove
  add-get =
      let self = lookup-assign_self id handler classes in
      (
        assign id handler classes,
        rw (add, free) refl,
        (
          (λ j. ground (arith, lookup-assign id j handler classes)),
          (λ other. rw (add, self) refl),
          (
            erase id (assign id handler classes),
            rw (remove, self) refl,
            λ j. ground (
              arith,
              lookup-assign id j handler classes,
              lookup-erase id j (assign id handler classes),
              free,
            ),
          ),
        ),
      )

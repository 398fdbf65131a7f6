-- ===== src/Worker/Grads.antt =====
-- How the gradients of a push are split among the servers: GlobalPushAccess::arrange_local_grads of
-- src/core/parameter/global_push_access.h.
use swift_snails.Base.{
  ℕ, ◌≡◌, ◌≢◌, refl, ap, sym, ◌∙◌, List, [], ◌∷◌, ◌++◌, Option, none, some, ok, ◌>>=◌, ◌==◌, ◌||◌,
  Bool, false, if◌then◌else◌, arith, Returns, All, append-nil, Option-cases, inl, inr,
}
use mathlib.Core.Option
use swift_snails.Base.HashMap.{HashMap, find-assign}
use swift_snails.Base.Ascending.{All_imp}
use swift_snails.Base.Map.{lookup, nat_ordered}
use swift_snails.HashFrag.{HashFrag, to_node_id}
use swift_snails.Worker.{NodeReqs, ParamCache, ensure, group, push_back, arrange_local_grads}
use swift_snails.Worker.Arrange.{group-ensure, grouped-step}

-- The gradients that the keys of node `id` contribute to its group, each with its key.
abbrev pub grads_of : {G : Type 0} → (ℕ → ℕ) → (ℕ → Option G) → ℕ → List ℕ → List (ℕ × G)
grads_of node_of find id [] = []
grads_of node_of find id (key ∷ keys) =
    let rest = grads_of node_of find id keys in
    elim (find key) [
      | none ↦ rest
      | some grad ↦ if id == node_of key then (key, grad) ∷ rest else rest
    ]

abbrev pub among : ℕ → List ℕ → Bool
among j [] = false
among j (key ∷ keys) = (j == key) || among j keys

-- What a key's gradient is after the push.
abbrev pub pushed : {G : Type 0} → (G → G) → (ℕ → Option G) → List ℕ → ℕ → Option G
pushed reset find keys j = if among j keys then Option.map reset (find j) else find j

-- Each key is there once.
abbrev pub Once : List ℕ → Type 0
Once [] = Unit
Once (key ∷ keys) = All (λ j. j ≢ key) keys × Once keys

grads_of-same :
    {G : Type 0} (node_of : ℕ → ℕ) (f g : ℕ → Option G) (id : ℕ) (keys : List ℕ)
    → All (λ j. f j ≡ g j) keys
    → grads_of node_of f id keys ≡ grads_of node_of g id keys
grads_of-same node_of f g id [] _ = refl
grads_of-same node_of f g id (key ∷ keys) (h, hs) =
    ground (arith, h, grads_of-same node_of f g id keys hs)

among-other : (key : ℕ) (keys : List ℕ) → All (λ j. j ≢ key) keys → among key keys ≡ false
among-other key [] _ = refl
among-other key (j ∷ keys) (h, hs) = ground (arith, among-other key keys hs)

module _ {V G : Type 0} (HV : HashMap V) (HG : HashMap G) (empty_val : V) (empty_grad : G)
    (reset : G → G) (frag : HashFrag) (node_of : ℕ → ℕ) where
  abbrev Split :
      List ℕ
      → ParamCache HV HG empty_val empty_grad
      → NodeReqs (ℕ × G)
      → NodeReqs (ℕ × G) × ParamCache HV HG empty_val empty_grad
      → Type 0
  Split keys c reqs r =
      ((id : ℕ) → group id r.0 ≡ group id reqs ++ grads_of node_of (λ k. HG.find k c.grads) id keys)
      × ((j : ℕ) → HG.find j r.1.grads ≡ pushed reset (λ k. HG.find k c.grads) keys j)
      × (r.1.params ≡ c.params)

  Split-none :
      (key : ℕ) (keys : List ℕ) (c : ParamCache HV HG empty_val empty_grad)
      (reqs : NodeReqs (ℕ × G)) (r : NodeReqs (ℕ × G) × ParamCache HV HG empty_val empty_grad)
      → HG.find key c.grads ≡ none
      → Split keys c (ensure (node_of key) reqs) r
      → Split (key ∷ keys) c reqs r
  Split-none key keys c reqs r e (groups, reads, same) = (
    (λ id. rw e (
        groups id
        ∙ ap (λ l. l ++ grads_of node_of (λ k. HG.find k c.grads) id keys)
            (group-ensure (node_of key) id reqs))),
    (λ j. ground (arith, e, reads j)),
    same,
  )

  Split-some :
      (key : ℕ) (keys : List ℕ) (grad : G) (c : ParamCache HV HG empty_val empty_grad)
      (reqs : NodeReqs (ℕ × G)) (r : NodeReqs (ℕ × G) × ParamCache HV HG empty_val empty_grad)
      → All (λ j. j ≢ key) keys
      → key ≢ HG.reserved
      → HG.find key c.grads ≡ some grad
      → Split keys
          (record c { grads = HG.assign key (reset grad) c.grads })
          (push_back (node_of key) (key, grad) (ensure (node_of key) reqs))
          r
      → Split (key ∷ keys) c reqs r
  Split-some key keys grad c reqs r apart usable e (groups, reads, same) =
      let at = find-assign HG key (reset grad) c.grads usable in
      let before = λ (k : ℕ). HG.find k c.grads in
      let after = λ (k : ℕ). HG.find k (HG.assign key (reset grad) c.grads) in
      let kept : All (λ j. after j ≡ before j) keys =
        All_imp keys (λ j other. ground (arith, at j)) apart in
      (
        (λ id. rw e (
            groups id
            ∙ ap
                (λ l.
                  group id (push_back (node_of key) (key, grad) (ensure (node_of key) reqs)) ++ l)
                (grads_of-same node_of after before id keys kept)
            ∙ grouped-step node_of id key (key, grad) reqs (grads_of node_of before id keys))),
        (λ j. ground (arith, e, reads j, at j, among-other key keys apart)),
        same,
      )

  arrange_grads_from :
      (keys : List ℕ) (c : ParamCache HV HG empty_val empty_grad) (reqs : NodeReqs (ℕ × G))
      → Once keys
      → All (λ key. (key ≢ HG.reserved) × (to_node_id key frag ≡ ok (node_of key))) keys
      → Returns
          (arrange_local_grads HV HG empty_val empty_grad reset frag keys c reqs)
          (Split keys c reqs)
  unfolding arrange_local_grads
  arrange_grads_from [] c reqs _ _ =
      ((reqs, c), refl, ((λ id. sym (append-nil _)), (λ j. refl), refl))
  arrange_grads_from (key ∷ keys) c reqs (apart, once) ((usable, at), routed) =
      elim (Option-cases (HG.find key c.grads)) [
        | inl e ↦
            let (r, run, split) =
              arrange_grads_from keys c (ensure (node_of key) reqs) once routed in
            (r, rw (at, ◌>>=◌, e) run, Split-none key keys c reqs r e split)
        | inr (grad, e) ↦
            let (r, run, split) =
              arrange_grads_from keys (record c { grads = HG.assign key (reset grad) c.grads })
                (push_back (node_of key) (key, grad) (ensure (node_of key) reqs)) once routed in
            (r, rw (at, ◌>>=◌, e) run, Split-some key keys grad c reqs r apart usable e split)
      ]

  -- When the fragment table sends each key to a node and the keys are different and can be in the
  -- table, a push sends to each node the gradients that the cache has for its keys, in the order of
  -- the loop; the gradients that are sent are reset in the cache, and nothing else of it changes.
  pub arrange_local_grads-splits :
      (keys : List ℕ) (c : ParamCache HV HG empty_val empty_grad)
      → Once keys
      → All (λ key. (key ≢ HG.reserved) × (to_node_id key frag ≡ ok (node_of key))) keys
      → Returns (arrange_local_grads HV HG empty_val empty_grad reset frag keys c []) λ r.
        ((id : ℕ) → group id r.0 ≡ grads_of node_of (λ k. HG.find k c.grads) id keys)
        × ((j : ℕ) → HG.find j r.1.grads ≡ pushed reset (λ k. HG.find k c.grads) keys j)
        × (r.1.params ≡ c.params)
  unfolding lookup
  arrange_local_grads-splits keys c once routed = arrange_grads_from keys c [] once routed

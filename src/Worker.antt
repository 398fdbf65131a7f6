-- ===== src/Worker.antt =====
-- The worker's side of pull and push: src/core/parameter/global_param_cache.h (the local parameters
-- and gradients), global_pull_access.h and global_push_access.h (which split the keys among the
-- servers, send one request to each, and block until the responses are counted down).
-- A set of keys is the list in which the code's iteration meets them. The network and the threads are
-- not in these definitions: the requests are given in the order of the loop that sends them, and a
-- response is a call of its handler.
pub mod Cache
pub mod Countdown
pub mod Arrange
pub mod Grads
pub mod Pulling
pub mod Pushing
pub mod Calling
pub mod Blocking
mod Tests
use swift_snails.Base.{
  ℕ, zero, suc, ◌+◌, ◌-◌, ◌%◌, ◌^◌, List, [], ◌∷◌, ◌++◌, Option, none, some, Result, ok, ◌>>=◌,
  ◌==◌, if◌then◌else◌, length, Bool, true, false,
}
use swift_snails.Base.HashMap.{HashMap}
use swift_snails.Base.Map.{lookup, assign, nat_ordered}
use swift_snails.Buffer.{Buffer, new}
use swift_snails.Buffer.Codec.{Codec, put_records, get_records}
use swift_snails.HashFrag.{HashFrag, to_node_id}

-- `num_reqs` of a blocked call and the state of its StateBarrier.
pub record Pending : Type 0 where
  pub num_reqs : ℕ
  pub unblock_state : Bool

-- the call's start: all the requests are pending
abbrev pub start : ℕ → Pending
start n = record { num_reqs = n; unblock_state = false }

-- extra_rsp_callback: `if (--num_reqs == 0)`, on a size_t
unfoldable pub extra_rsp_callback : Pending → Pending
extra_rsp_callback p =
    let left = (p.num_reqs + 2 ^ 64 - 1) % 2 ^ 64 in
    if left == 0
    then record { num_reqs = left; unblock_state = true }
    else record p { num_reqs = left }

-- The requests to each node, by node id.
abbrev pub NodeReqs : Type 0 → Type 0
NodeReqs A = List (ℕ × List A)

module _ {A : Type 0} where
  -- `if (node_reqs.count(node_id) == 0) node_reqs[node_id] = {}`
  unfoldable pub ensure : ℕ → NodeReqs A → NodeReqs A
  ensure id reqs = elim (lookup id reqs) [ none ↦ assign id [] reqs | some _ ↦ reqs ]

  -- the vector of a node, where operator[] makes an empty one
  abbrev pub group : ℕ → NodeReqs A → List A
  group id reqs = elim (lookup id reqs) [ none ↦ [] | some items ↦ items ]

  -- node_reqs[node_id].push_back(item)
  unfoldable pub push_back : ℕ → A → NodeReqs A → NodeReqs A
  push_back id item reqs = assign id (group id reqs ++ item ∷ []) reqs

module _ {V : Type 0} (empty_val : V) (frag : HashFrag) where
  -- GlobalPullAccess::arrange_local_vals; the number of requests is the length of the result
  pub arrange_local_vals : List ℕ → NodeReqs (ℕ × V) → Result (NodeReqs (ℕ × V))
  arrange_local_vals [] reqs = ok reqs
  arrange_local_vals (key ∷ keys) reqs = do
    id ← to_node_id key frag
    arrange_local_vals keys (push_back id (key, empty_val) (ensure id reqs))

module _ {V G : Type 0} (HV : HashMap V) (HG : HashMap G) (empty_val : V) (empty_grad : G) where
  pub record ParamCache : Type 0 where
    pub params : HV.Table
    pub grads : HG.Table
    pub num_iters : ℕ
    pub terminate_flag : Bool

  -- GlobalParamCache()
  unfoldable pub new_cache : ParamCache
  new_cache = record { params = HV.empty; grads = HG.empty; num_iters = 0; terminate_flag = false }

  -- init_key(key, param_random), where `random` is the value's init(true)
  unfoldable pub init_key : (V → V) → ℕ → Bool → ParamCache → ParamCache
  init_key random key param_random c =
      let val = if param_random then random empty_val else empty_val in
      record c { params = HV.assign key val c.params; grads = HG.assign key empty_grad c.grads }

  -- init_keys(keys)
  pub init_keys : List ℕ → ParamCache → ParamCache
  init_keys [] c = c
  init_keys (key ∷ keys) c = init_keys keys (record c {
    params = HV.assign key empty_val c.params;
    grads = HG.assign key empty_grad c.grads;
  })

  unfoldable pub inc_num_iters : ParamCache → ParamCache
  inc_num_iters c = record c { num_iters = c.num_iters + 1 }

  unfoldable pub terminate_service_deamons : ParamCache → ParamCache
  terminate_service_deamons c = record c { terminate_flag = true }

  -- the loop of the pull's response handler: a parameter is overwritten and its gradient starts anew
  pub write_cache : List (ℕ × V) → ParamCache → ParamCache
  write_cache [] c = c
  write_cache ((key, val) ∷ items) c =
      write_cache items
        (record c { params = HV.assign key val c.params; grads = HG.assign key empty_grad c.grads })

  -- the pull's response handler, with the barrier's callback
  unfoldable pub pull_response :
      Codec ℕ → Codec V → Buffer → ParamCache → Pending → Result (ParamCache × Pending)
  unfolding write_cache
  pull_response CK CV rsp c p = do
    (items, _) ← get_records CK CV (rsp.end + 1) rsp
    ok (write_cache items c, extra_rsp_callback p)

  -- GlobalPushAccess::arrange_local_grads, with `reset` the gradient's reset(): the groups and the
  -- cache in which the gradients that are sent start anew
  pub arrange_local_grads :
      (G → G)
      → HashFrag
      → List ℕ
      → ParamCache
      → NodeReqs (ℕ × G)
      → Result (NodeReqs (ℕ × G) × ParamCache)
  arrange_local_grads reset frag [] c reqs = ok (reqs, c)
  arrange_local_grads reset frag (key ∷ keys) c reqs = do
    id ← to_node_id key frag
    let reqs' = ensure id reqs
    elim (HG.find key c.grads) [
      | none ↦ arrange_local_grads reset frag keys c reqs'
      | some grad ↦
          arrange_local_grads reset frag keys
            (record c { grads = HG.assign key (reset grad) c.grads })
            (push_back id (key, grad) reqs')
    ]

-- GlobalPullAccess::send: one request to each node, with its records as content
pub pull_requests : {V : Type 0} → Codec ℕ → Codec V → NodeReqs (ℕ × V) → Result (List (ℕ × Buffer))
pull_requests CK CV [] = ok []
pull_requests CK CV ((id, items) ∷ reqs) = do
  cont ← put_records CK CV items new
  rest ← pull_requests CK CV reqs
  ok ((id, cont) ∷ rest)

-- GlobalPushAccess::send: `if (item.second.empty()) continue;`
pub push_requests : {G : Type 0} → Codec ℕ → Codec G → NodeReqs (ℕ × G) → Result (List (ℕ × Buffer))
push_requests CK CG [] = ok []
push_requests CK CG ((id, []) ∷ reqs) = push_requests CK CG reqs
push_requests CK CG ((id, item ∷ items) ∷ reqs) = do
  cont ← put_records CK CG (item ∷ items) new
  rest ← push_requests CK CG reqs
  ok ((id, cont) ∷ rest)

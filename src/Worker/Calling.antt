-- ===== src/Worker/Calling.antt =====
-- The blocking calls of a worker: pull_with_barrier and push_with_barrier of
-- src/core/parameter/global_pull_access.h and global_push_access.h, up to the wait. The contents are made
-- before the first of them is sent; the callbacks of all the requests of a call are one `handler`.
mod Tests
pub mod Sending
use swift_snails.Base.{ℕ, List, [], ◌∷◌, Result, ok, ◌>>=◌, length}
use swift_snails.Base.HashMap.{HashMap}
use swift_snails.Buffer.{Buffer}
use swift_snails.Buffer.Codec.{Codec}
use swift_snails.HashFrag.{HashFrag}
use swift_snails.Message.{Request, new_request}
use swift_snails.Transfer.{Transfer, send}
use swift_snails.Master.{MsgCls}
use swift_snails.NodeInit.{set_class}
use swift_snails.Worker.{
  Pending, start, ParamCache, arrange_local_vals, arrange_local_grads, pull_requests, push_requests,
}

module _ {H B A : Type 0} (addrs : List (ℕ × A)) (handler : B) where
  -- the loop of send(): a request of the class to each node
  pub send_requests : MsgCls → List (ℕ × Buffer) → Transfer H B → Result (Transfer H B)
  send_requests class [] t = ok t
  send_requests class ((id, cont) ∷ contents) t = do
    t' ← send addrs (set_class class (record new_request { cont = cont })) handler id t
    send_requests class contents t'

  -- pull_with_barrier(keys, param_cache)
  unfoldable pub pull_with_barrier :
      {V : Type 0}
      → Codec ℕ
      → Codec V
      → V
      → HashFrag
      → List ℕ
      → Transfer H B
      → Result (Transfer H B × Pending)
  pull_with_barrier key_codec val_codec empty_val frag keys t = do
    reqs ← arrange_local_vals empty_val frag keys []
    contents ← pull_requests key_codec val_codec reqs
    t' ← send_requests MsgCls.worker_pull_request contents t
    ok (t', start (length reqs))

  -- push_with_barrier(keys, param_cache)
  unfoldable pub push_with_barrier :
      {V G : Type 0} (HV : HashMap V) (HG : HashMap G) (empty_val : V) (empty_grad : G)
      → Codec ℕ
      → Codec G
      → (G → G)
      → HashFrag
      → List ℕ
      → ParamCache HV HG empty_val empty_grad
      → Transfer H B
      → Result ((Transfer H B × Pending) × ParamCache HV HG empty_val empty_grad)
  push_with_barrier HV HG empty_val empty_grad key_codec grad_codec reset frag keys cache t = do
    (reqs, cache') ← arrange_local_grads HV HG empty_val empty_grad reset frag keys cache []
    contents ← push_requests key_codec grad_codec reqs
    t' ← send_requests MsgCls.worker_push_request contents t
    ok ((t', start (length reqs)), cache')

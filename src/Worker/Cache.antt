-- ===== src/Worker/Cache.antt =====
-- The local cache of parameters and gradients: GlobalParamCache of
-- src/core/parameter/global_param_cache.h and the response handler of GlobalPullAccess::send.
use swift_snails.Base.{
  ℕ, ◌+◌, ◌≡◌, ◌≢◌, refl, ap, ◌∙◌, List, [], ◌∷◌, Option, some, ◌>>=◌, ◌==◌, if◌then◌else◌, arith,
  Returns, All, map,
}
use swift_snails.Base.HashMap.{HashMap, find-assign}
use swift_snails.Buffer.{Buffer}
use swift_snails.Buffer.Contents.{Holds, cursor-end}
use swift_snails.Buffer.Codec.{Codec, Fit, records_wire, get_records-Holds}
use swift_snails.Worker.{Pending, ParamCache, write_cache, pull_response, extra_rsp_callback}

-- The value of the last record at key `j`, or else `o`.
abbrev pub latest : {V : Type 0} → ℕ → List (ℕ × V) → Option V → Option V
latest j [] o = o
latest j ((key, val) ∷ items) o = latest j items (if j == key then some val else o)

module _ {V G : Type 0} (HV : HashMap V) (HG : HashMap G) (empty_val : V) (empty_grad : G) where
  -- No key is the reserved one of a table.
  abbrev pub Usable : List (ℕ × V) → Type 0
  Usable = All (λ item. (item.0 ≢ HV.reserved) × (item.0 ≢ HG.reserved))

  write_cache-latest :
      (items : List (ℕ × V)) (c : ParamCache HV HG empty_val empty_grad)
      → Usable items
      → (j : ℕ)
      → let c' = write_cache HV HG empty_val empty_grad items c in
        (HV.find j c'.params ≡ latest j items (HV.find j c.params))
        × (HG.find j c'.grads
            ≡ latest j (map (λ item. (item.0, empty_grad)) items) (HG.find j c.grads))
        × (c'.num_iters ≡ c.num_iters)
  unfolding write_cache
  write_cache-latest [] c usable j = (refl, refl, refl)
  write_cache-latest ((key, val) ∷ items) c ((u, u'), usable) j =
      let c₁ = record c {
        params = HV.assign key val c.params;
        grads = HG.assign key empty_grad c.grads;
      } in
      let (p, g, n) = write_cache-latest items c₁ usable j in
      (
        p ∙ ap (latest j items) (find-assign HV key val c.params u j),
        g
            ∙ ap (latest j (map (λ item. (item.0, empty_grad)) items))
                (find-assign HG key empty_grad c.grads u' j),
        n,
      )

  -- The answer to a pull, a buffer of records, is read to its end: afterwards the cache has for each
  -- key the value of its last record and an empty gradient, for any other key what it had, and one
  -- response less is pending.
  pub pull_response-latest :
      (CK : Codec ℕ) (CV : Codec V) (items : List (ℕ × V)) {stored : List ℕ} (rsp : Buffer)
      (c : ParamCache HV HG empty_val empty_grad) (p : Pending)
      → Fit CK CV items
      → Usable items
      → Holds stored (records_wire CK CV items) rsp
      → Returns (pull_response HV HG empty_val empty_grad CK CV rsp c p) λ r.
        ((j : ℕ) → HV.find j r.0.params ≡ latest j items (HV.find j c.params))
        × ((j : ℕ)
            → HG.find j r.0.grads
              ≡ latest j (map (λ item. (item.0, empty_grad)) items) (HG.find j c.grads))
        × (r.0.num_iters ≡ c.num_iters)
        × (r.1 ≡ extra_rsp_callback p)
  unfolding pull_response
  pull_response-latest CK CV items rsp c p fits usable h =
      let (r, run, (same, _)) =
        get_records-Holds CK CV items (rsp.end + 1) rsp fits h (omega (arith, cursor-end rsp h)) in
      let done = write_cache-latest items c usable in
      (
        (write_cache HV HG empty_val empty_grad items c, extra_rsp_callback p),
        rw (run, ◌>>=◌, same) refl,
        ((λ j. (done j).0), (λ j. (done j).1), (done 0).2, refl),
      )

-- ===== src/SparseTable/Access.antt =====
-- What a pull and a push do to the table as one map.
use swift_snails.Base.{
  ℕ, ◌≡◌, ◌≢◌, refl, ap, ◌⊎◌, ◌∙◌, Option, none, some, abort, check_failed, ◌>>=◌, ◌==◌,
  if◌then◌else◌, arith, Returns, Option-cases, inl, inr,
}
use swift_snails.Base.HashMap.{HashMap}
use swift_snails.SparseTable.{PullMethod, PushMethod, SparseTable, get_pull_value, apply_push_value}
use swift_snails.SparseTable.Sharding.{IsValid, view, find-view, assign-view}

-- What the table holds, or else the initialised default.
abbrev pub or_init : {V Val : Type 0} → PullMethod V Val → V → ℕ → Option V → V
or_init method default key none = method.init_param key default
or_init method default key (some param) = param

self_update :
    {V : Type 0} (H : HashMap V) (key : ℕ) (t : SparseTable H) {param : V}
    → view H t key ≡ some param
    → (j : ℕ) → view H t j ≡ (if j == key then some param else view H t j)
self_update H key t e j = ground (arith, e)

module _ {V Val : Type 0} (H : HashMap V) (method : PullMethod V Val) (default : V) where
  -- A pull of a usable key succeeds, answers from the parameter of the key, and leaves the table with
  -- that parameter at the key: the one that was there, or the initialised default. No other key changes.
  pub get_pull_value-view :
      (key : ℕ) (val : Val) (t : SparseTable H)
      → IsValid H t
      → key ≢ H.reserved
      → let param = or_init method default key (view H t key) in
        Returns (get_pull_value H method default key val t) λ r.
          (r.0 ≡ method.get_pull_value key param val)
          × IsValid H r.1
          × ((j : ℕ) → view H r.1 j ≡ (if j == key then some param else view H t j))
  unfolding get_pull_value
  get_pull_value-view key val t v usable = elim (Option-cases (view H t key)) [
    | inr (param, e) ↦ rw e (
      (method.get_pull_value key param val, t),
      rw (find-view H key t v, ◌>>=◌, e),
      (refl, v, self_update H key t e),
    )
    | inl e ↦
        let param = method.init_param key default in
        let (t', run, (v', reads)) = assign-view H key param t v usable in
        rw e (
          (method.get_pull_value key param val, t'),
          rw (find-view H key t v, ◌>>=◌, e, run),
          (refl, v', reads),
        )
  ]

  -- After a pull, a later pull of the same key by any client answers from the same parameter and
  -- changes no key: the default is initialised once.
  pub get_pull_value_twice :
      (key : ℕ) (val val' : Val) (t : SparseTable H)
      → IsValid H t
      → key ≢ H.reserved
      → let param = or_init method default key (view H t key) in
        Returns
          (get_pull_value H method default key val t >>= λ r.
            get_pull_value H method default key val' r.1)
          λ r.
            (r.0 ≡ method.get_pull_value key param val')
            × ((j : ℕ) → view H r.1 j ≡ (if j == key then some param else view H t j))
  get_pull_value_twice key val val' t v usable =
      let param = or_init method default key (view H t key) in
      let (r, run, (_, v', reads)) = get_pull_value-view key val t v usable in
      let now : view H r.1 key ≡ some param = ground (arith, reads key) in
      let (q, run', (answer, _, reads')) = get_pull_value-view key val' r.1 v' usable in
      (
        q,
        rw (run, ◌>>=◌) run',
        (
          answer ∙ ap (λ p. method.get_pull_value key (or_init method default key p) val') now,
          λ j. ground (arith, now, reads j, reads' j),
        ),
      )

module _ {V Grad : Type 0} (H : HashMap V) (method : PushMethod V Grad) where
  -- A push to a key that the table holds applies the gradient to its parameter and changes no other
  -- key; a push to a key that was never pulled fails a CHECK.
  pub apply_push_value-view :
      (key : ℕ) (grad : Grad) (t : SparseTable H)
      → IsValid H t
      → key ≢ H.reserved
      → ((param : V) × (view H t key ≡ some param)
          × Returns (apply_push_value H method key grad t) λ t'.
            IsValid H t'
            × ((j : ℕ)
                → view H t' j ≡ (
                    if j == key
                    then some (method.apply_push_value key param grad)
                    else view H t j)))
        ⊎ ((view H t key ≡ none) × (apply_push_value H method key grad t ≡ abort check_failed))
  unfolding apply_push_value
  apply_push_value-view key grad t v usable = elim (Option-cases (view H t key)) [
    | inl e ↦ inr (e, rw (find-view H key t v, ◌>>=◌, e))
    | inr (param, e) ↦
        let (t', run, done) =
          assign-view H key (method.apply_push_value key param grad) t v usable in
        inl (param, e, (t', rw (find-view H key t v, ◌>>=◌, e) run, done))
  ]

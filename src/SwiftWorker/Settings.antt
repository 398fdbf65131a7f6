-- ===== src/SwiftWorker/Settings.antt =====
-- What the constructor of a worker asks of its settings.
use swift_snails.Base.{
  ◌≡◌, ◌↔◌, refl, sym, ap, subst, Result, ok, ◌>>=◌, check, >>=-eq-ok, Bool, true, false, ℤ,
}
use swift_snails.Strings.{String}
use swift_snails.Config.{Dic, get_config, get_int32}
use swift_snails.Listener.{positive}
use swift_snails.SwiftWorker.{
  is_set, num_iters_key, learning_rate_key, thread_num_key, local_train_key, WorkerSettings,
  to_float, worker_settings,
}

check_passed : (b : Bool) (u : Unit {0}) → check b ≡ ok u → b ≡ true
check_passed true u run = refl
check_passed false u run = cc

ok_same : {A : Type 0} (a b : A) → ok a ≡ ok b → a ≡ b
ok_same a b e = cc

module _ {F : Type 0} (stoi : String → Result ℤ) (stof : String → Result F) (above : F → Bool) where
  -- The settings are there and are numbers, those that must be are positive, and `w` is what they say.
  record Proper (path : String) (dic : Dic) (w : WorkerSettings F) : Type 0 where
    path_set : is_set path ≡ true
    iters : get_int32 stoi num_iters_key dic ≡ ok w.num_iters
    some_iters : positive w.num_iters ≡ true
    rate_text : String
    rate_set : get_config learning_rate_key dic ≡ ok rate_text
    rate_text_set : is_set rate_text ≡ true
    rate : stof rate_text ≡ ok w.learning_rate
    rate_above : above w.learning_rate ≡ true
    threads : get_int32 stoi thread_num_key dic ≡ ok w.async_channel_thread_num
    local : ℤ
    local_set : get_int32 stoi local_train_key dic ≡ ok local
    trains_locally : w.local_train ≡ positive local

  -- The constructor of a worker returns with the settings `w` exactly when the configuration has its
  -- four settings, they are numbers, the number of iterations and the learning rate are above 0, and
  -- `w` is made of them; the number of threads of the channel may be any number.
  worker_settings-Proper :
      (path : String) (dic : Dic) (w : WorkerSettings F)
      → (worker_settings stoi stof above path dic ≡ ok w) ↔ Proper path dic w
  unfolding worker_settings to_float
  worker_settings-Proper path dic w = (
    λ run.
        let (u₁, c₁, run₁) = >>=-eq-ok (check (is_set path)) _ run in
        let (iters, i, run₂) = >>=-eq-ok (get_int32 stoi num_iters_key dic) _ run₁ in
        let (u₂, c₂, run₃) = >>=-eq-ok (check (positive iters)) _ run₂ in
        let (text, t, run₄) = >>=-eq-ok (get_config learning_rate_key dic) _ run₃ in
        let (rate, r, run₅) = >>=-eq-ok (to_float stoi stof above text) _ run₄ in
        let (u₃, c₃, r') = >>=-eq-ok (check (is_set text)) _ r in
        let (threads, n, run₆) = >>=-eq-ok (get_int32 stoi thread_num_key dic) _ run₅ in
        let (local, l, run₇) = >>=-eq-ok (get_int32 stoi local_train_key dic) _ run₆ in
        let (u₄, c₄, last) = >>=-eq-ok (check (above rate)) _ run₇ in
        let made : WorkerSettings F = record {
          num_iters = iters;
          learning_rate = rate;
          async_channel_thread_num = threads;
          local_train = positive local;
        } in
        let same : ok made ≡ ok w = last in
        subst (Proper path dic) (ok_same made w same) (record {
          path_set = check_passed (is_set path) u₁ c₁;
          iters = i;
          some_iters = check_passed (positive iters) u₂ c₂;
          rate_text = text;
          rate_set = t;
          rate_text_set = check_passed (is_set text) u₃ c₃;
          rate = r';
          rate_above = check_passed (above rate) u₄ c₄;
          threads = n;
          local = local;
          local_set = l;
          trains_locally = refl;
        }),
    λ proper.
        rw
          (
            proper.path_set, proper.iters, proper.some_iters, proper.rate_set, proper.rate_text_set,
            proper.rate, proper.threads, proper.local_set, proper.rate_above, ◌>>=◌,
          )
          (ap (λ b. ok (record w { local_train = b })) (sym proper.trains_locally)),
  )

-- ===== src/SwiftMaster/Advancing.antt =====
-- What the main thread of the master does to its order.
use swift_snails.Base.{
  ℕ, ◌≡◌, refl, sym, ap, subst, ◌∙◌, arith, List, [], ◌∷◌, ok, >>=-eq-ok, Bool, true, false,
  Bool-cases, if-true, if-false, inl, inr, ◌≤◌, ◌<◌, check, not, ◌==◌, if◌then◌else◌,
}
use swift_snails.Base.Map.{assign, nat_ordered, lookup-assign}
use swift_snails.Transfer.{Transfer, add}
use swift_snails.Framework.Keeping.{send-Kept}
use swift_snails.Buffer
use swift_snails.Buffer.Words.{put_word}
use swift_snails.Message.{new_request}
use swift_snails.NodeInit.{set_class}
use swift_snails.Master.{
  Master, MsgCls, register_message_class, init_hashfrag, send_route_to_workers,
}
use swift_snails.Terminate.{
  MasterTerminate, set_counts, set_worker_num, set_server_num, check_counts, tell_server,
  tell_servers, wait_for_all_workers_finish, tell_all_servers_to_terminate,
}
use swift_snails.SwiftMaster.{
  Handler, init_address, askfor, finish_work, Callback, told_server, Phase, fresh, registering,
  collecting, telling, ended, SwiftMaster, share_out, tell_all, go_on,
}
use swift_snails.SwiftMaster.Keeping.{
  NoOrder, Right, is_finish, finish_tasks, answer_tasks, send_routes-Quiet,
}
use swift_snails.SwiftMaster.Order.{AllFinished, Ordered, Counts, Kept, transfer-Counts}

add-Right :
    (id : ℕ) (h : Handler) (l l' : List (ℕ × Handler))
    → is_finish h ≡ (id == 4)
    → add id h l ≡ ok l'
    → Right l
    → Right l'
unfolding add
add-Right id h l l' e run right =
    let same : assign id h l ≡ l' = ground (arith, run) in
    subst Right same (λ j k there. ground (arith, there, lookup-assign id j h l, right j k, e))

-- What the counts of the nodes leave.
set_counts-keeps :
    (m : Master) (e e' : MasterTerminate)
    → set_counts m e ≡ ok e'
    → (e'.workers_finished ≡ e.workers_finished)
      × (e'.servers_finished ≡ e.servers_finished)
      × (e'.num_finished_workers ≡ e.num_finished_workers)
      × (e'.num_finished_servers ≡ e.num_finished_servers)
unfolding set_counts set_worker_num set_server_num
set_counts-keeps m e e' run = (ground arith, ground arith, ground arith, ground arith)

check_counts-some :
    (e e' : MasterTerminate)
    → check_counts e ≡ ok e'
    → (e ≡ e') × (0 < e.worker_num) × (0 < e.server_num)
unfolding check_counts
check_counts-some e e' run = (ground arith, ground arith, ground arith)

wait_for-keeps :
    (t t' : Transfer Handler Callback)
    → wait_for_all_workers_finish finish_work t ≡ ok t'
    → (t'.sent ≡ t.sent) × (t'.tasks ≡ t.tasks) × (Right t.message_class → Right t'.message_class)
unfolding wait_for_all_workers_finish
wait_for-keeps t t' run =
    let (c, adds, last) = >>=-eq-ok (add 4 finish_work t.message_class) _ run in
    let classes : c ≡ t'.message_class = ground (arith, last) in
    (
      ground (arith, last),
      ground (arith, last),
      λ right. subst Right classes (add-Right 4 finish_work t.message_class c refl adds right),
    )

tell_servers-keeps :
    (addrs : List (ℕ × List ℕ)) (ids : List ℕ) (t t' : Transfer Handler Callback)
    → tell_servers addrs told_server ids t ≡ ok t'
    → (t'.message_class ≡ t.message_class) × (t'.tasks ≡ t.tasks)
unfolding tell_servers tell_server
tell_servers-keeps addrs [] t t' run = (ground arith, ground arith)
tell_servers-keeps addrs (id ∷ ids) t t' run =
    let (t₁, one, rest) =
      >>=-eq-ok (if id == 0 then ok t else tell_server addrs told_server id t) _ run in
    let (classes, tasks) = tell_servers-keeps addrs ids t₁ t' rest in
    elim (Bool-cases (id == 0)) [
      | inl master ↦
          let same : ok t ≡ ok t₁ = if-true (id == 0) _ _ master one in
          let now : t ≡ t₁ = cc in
          subst (λ x. (t'.message_class ≡ x.message_class) × (t'.tasks ≡ x.tasks)) (sym now)
            (classes, tasks)
      | inr server ↦
          let told = if-false (id == 0) _ _ server one in
          let (cont, _, sends) = >>=-eq-ok (put_word 4 1234 Buffer.new) _ told in
          let (classes', tasks') =
            send-Kept addrs
              (set_class MsgCls.server_told_to_terminate (record new_request { cont = cont }))
              told_server id t t₁ sends in
          (classes ∙ classes', tasks ∙ tasks')
    ]

tell_all-keeps :
    (addrs : List (ℕ × List ℕ)) (ids : List ℕ) (e e' : MasterTerminate)
    (t t' : Transfer Handler Callback)
    → tell_all_servers_to_terminate addrs told_server ids e t ≡ ok (e', t')
    → (record e { num_finished_servers = 0 } ≡ e')
      × (t'.message_class ≡ t.message_class)
      × (t'.tasks ≡ t.tasks)
unfolding tell_all_servers_to_terminate
tell_all-keeps addrs ids e e' t t' run =
    let (t₁, tells, last) = >>=-eq-ok (tell_servers addrs told_server ids t) _ run in
    let (classes, tasks) = tell_servers-keeps addrs ids t t₁ tells in
    (ground (arith, last), ground (arith, last, classes), ground (arith, last, tasks))

-- The workers can only have finished once the flag is set.
unset-waits : (b : Bool) (n k : ℕ) → b ≡ false → b ≡ true → n ≤ k
unset-waits b n k unset set = ground (arith, unset, set)

after_registering :
    (a b frag_num : ℕ) (s s' : SwiftMaster)
    → s.phase ≡ registering
    → Kept a b s
    → share_out frag_num s ≡ ok s'
    → Kept a b s'
unfolding share_out send_route_to_workers
after_registering a b frag_num s s' at (c, k) run =
    let (sent, (_, _, unset, unset')) = subst (λ p. Ordered p s.transfer s.terminate) at k in
    let (m, _, run₁) = >>=-eq-ok (init_hashfrag frag_num s.master_init) _ run in
    let (t, sends, run₂) = >>=-eq-ok (send_route_to_workers m s.transfer) _ run₁ in
    let (counted, counts, run₃) = >>=-eq-ok (set_counts m s.terminate) _ run₂ in
    let (e, checked, run₄) = >>=-eq-ok (check_counts counted) _ run₃ in
    let (t', waits, last) = >>=-eq-ok (wait_for_all_workers_finish finish_work t) _ run₄ in
    let (classes, tasks, quiet) = send_routes-Quiet m.route.base.send_addrs m s.transfer t sends in
    let (equal, some_worker, some_server) = check_counts-some counted e checked in
    let (sent', tasks', right) = wait_for-keeps t t' waits in
    let (flag, flag', workers, servers) = set_counts-keeps m s.terminate counted counts in
    let now : record { transfer = t'; master_init = m; terminate = counted; phase = collecting }
        ≡ s' =
      cc in
    let c₁ = transfer-Counts a b s.transfer t s.terminate classes tasks c in
    let kept : Counts a b t' counted = record {
      right = right c₁.right;
      workers = omega (arith, c₁.workers, workers, ap finish_tasks tasks');
      servers = omega (arith, c₁.servers, servers, ap answer_tasks tasks');
      all_servers = unset-waits counted.servers_finished counted.server_num b (flag' ∙ unset');
    } in
    subst (Kept a b) now (
      kept,
      (
        subst NoOrder (sym sent') (quiet sent),
        some_worker,
        some_server,
        unset-waits counted.workers_finished counted.worker_num counted.num_finished_workers
            (flag ∙ unset),
      ),
    )

after_collecting :
    (a b : ℕ) (s s' : SwiftMaster)
    → s.phase ≡ collecting
    → s.terminate.workers_finished ≡ true
    → Kept a b s
    → tell_all s ≡ ok s'
    → Kept a b s'
unfolding tell_all
after_collecting a b s s' at done (c, k) run =
    let (_, some_worker, some_server, w) = subst (λ p. Ordered p s.transfer s.terminate) at k in
    let addrs = s.master_init.route.base.send_addrs in
    let ids = s.master_init.route.server_ids in
    let ((e, t), tells, last) =
      >>=-eq-ok (tell_all_servers_to_terminate addrs told_server ids s.terminate s.transfer) _
        run in
    let (same, classes, tasks) = tell_all-keeps addrs ids s.terminate e s.transfer t tells in
    let now : record s { transfer = t; terminate = e; phase = telling } ≡ s' = cc in
    let c₁ = transfer-Counts a b s.transfer t s.terminate classes tasks c in
    let kept : Counts a b t (record s.terminate { num_finished_servers = 0 }) = record {
      right = c₁.right;
      workers = c₁.workers;
      servers = omega (arith, c₁.servers);
      all_servers = c₁.all_servers;
    } in
    subst (Kept a b) now
      (subst (Counts a b t) same kept, subst AllFinished same (some_worker, some_server, w done))

-- The two classes with which the master begins.
register-keeps :
    (t t' : Transfer Handler Callback)
    → register_message_class init_address askfor t ≡ ok t'
    → Right t.message_class
    → Right t'.message_class × (t'.tasks ≡ t.tasks) × (t'.sent ≡ t.sent)
unfolding register_message_class
register-keeps t t' run right =
    let (c₁, one, run₁) = >>=-eq-ok (add 0 init_address t.message_class) _ run in
    let (c₂, two, last) = >>=-eq-ok (add 1 askfor c₁) _ run₁ in
    let right' =
      add-Right 1 askfor c₁ c₂ refl two
        (add-Right 0 init_address t.message_class c₁ refl one right) in
    let now : record t { message_class = c₂ } ≡ t' = cc in
    subst (λ x. Right x.message_class × (x.tasks ≡ t.tasks) × (x.sent ≡ t.sent)) now
      (right', refl, refl)

pub go_on-Kept :
    (a b frag_num : ℕ) (p : Phase) (s s' : SwiftMaster)
    → s.phase ≡ p
    → Kept a b s
    → go_on frag_num p s ≡ ok s'
    → Kept a b s'
unfolding go_on
go_on-Kept a b frag_num fresh s s' at (c, k) run =
    let (sent, early) = subst (λ p. Ordered p s.transfer s.terminate) at k in
    let (t, registers, run₁) =
      >>=-eq-ok (register_message_class init_address askfor s.transfer) _ run in
    let (_, _, last) = >>=-eq-ok (check (not t.closed)) _ run₁ in
    let (right, tasks, sent') = register-keeps s.transfer t registers c.right in
    let now : record s { transfer = t; phase = registering } ≡ s' = cc in
    let kept : Counts a b t s.terminate = record {
      right = right;
      workers = omega (arith, c.workers, ap finish_tasks tasks);
      servers = omega (arith, c.servers, ap answer_tasks tasks);
      all_servers = c.all_servers;
    } in
    subst (Kept a b) now (kept, (subst NoOrder (sym sent') sent, early))
go_on-Kept a b frag_num registering s s' at k run = elim (Bool-cases s.master_init.route_init) [
  | inl known ↦
      after_registering a b frag_num s s' at k (if-true s.master_init.route_init _ _ known run)
  | inr waits ↦
      let same : ok s ≡ ok s' = if-false s.master_init.route_init _ _ waits run in
      let now : s ≡ s' = cc in subst (Kept a b) now k
]
go_on-Kept a b frag_num collecting s s' at k run = elim (Bool-cases s.terminate.workers_finished) [
  | inl done ↦
      after_collecting a b s s' at done k (if-true s.terminate.workers_finished _ _ done run)
  | inr waits ↦
      let same : ok s ≡ ok s' = if-false s.terminate.workers_finished _ _ waits run in
      let now : s ≡ s' = cc in subst (Kept a b) now k
]
go_on-Kept a b frag_num telling s s' at (c, k) run =
    elim (Bool-cases s.terminate.servers_finished) [
      | inl done ↦
          let same : ok (record s { phase = ended }) ≡ ok s' =
            if-true s.terminate.servers_finished _ _ done run in
          let now : record s { phase = ended } ≡ s' = cc in
          subst (Kept a b) now (c, (subst (λ p. Ordered p s.transfer s.terminate) at k, done))
      | inr waits ↦
          let same : ok s ≡ ok s' = if-false s.terminate.servers_finished _ _ waits run in
          let now : s ≡ s' = cc in subst (Kept a b) now (c, k)
    ]
go_on-Kept a b frag_num ended s s' at k run = let now : s ≡ s' = cc in subst (Kept a b) now k

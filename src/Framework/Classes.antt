-- ===== src/Framework/Classes.antt =====
-- The classes that a server has registered in each phase, and what its main thread has waited for.
use swift_snails.Base.{
  ℕ, ◌+◌, ◌≡◌, refl, sym, ap, ◌∙◌, arith, List, [], ◌∷◌, ◌++◌, ok, Bool, true, false, Bool-cases,
  inl, inr, some, All, ◌==◌, if◌then◌else◌,
}
use swift_snails.Base.Map.{lookup, assign, nat_ordered, is_eq}
use swift_snails.Message.{Package}
use swift_snails.Transfer.{Transfer, Task, serve, call_back, add, as_index}
use swift_snails.Master.{MsgCls}
use swift_snails.NodeInit.{Node, Callback}
use swift_snails.Framework.{
  Handler, pull, push, told, Phase, fresh, joining, asking, pulling, pushing, serving, ended,
  register_handler,
}

abbrev pub early : Phase → Bool
early fresh = true
early joining = true
early asking = true
early pulling = false
early pushing = false
early serving = false
early ended = false

-- The classes of a server with their handlers, in each phase.
abbrev pub classes : Phase → List (ℕ × Handler)
classes fresh = []
classes joining = []
classes asking = []
classes pulling = (2, pull) ∷ []
classes pushing = (2, pull) ∷ (3, push) ∷ []
classes serving = (2, pull) ∷ (3, push) ∷ (5, told) ∷ []
classes ended = (2, pull) ∷ (3, push) ∷ (5, told) ∷ []

pub early-classes : (p : Phase) → early p ≡ true → classes p ≡ []
early-classes fresh e = refl
early-classes joining e = refl
early-classes asking e = refl
early-classes pulling e = cc
early-classes pushing e = cc
early-classes serving e = cc
early-classes ended e = cc

abbrev is_told : Handler → Bool
is_told pull = false
is_told push = false
is_told told = true

-- The orders to end that wait as tasks, and the packages that are one.
abbrev pub told_tasks : List (Task Handler Callback) → ℕ
told_tasks [] = 0
told_tasks (serve h q ∷ tasks) = (if is_told h then 1 else 0) + told_tasks tasks
told_tasks (call_back b q ∷ tasks) = told_tasks tasks

abbrev pub told_msg : Package → ℕ
told_msg pkg = if as_index pkg.meta.message_class == 5 then 1 else 0

pub told_tasks-append :
    (tasks : List (Task Handler Callback)) (task : Task Handler Callback)
    → told_tasks (tasks ++ task ∷ []) ≡ told_tasks tasks + told_tasks (task ∷ [])
told_tasks-append [] task = omega arith
told_tasks-append (serve h q ∷ tasks) task = omega (arith, told_tasks-append tasks task)
told_tasks-append (call_back b q ∷ tasks) task = told_tasks-append tasks task

abbrev Fifth : List (ℕ × Handler) → Type 0
Fifth = All (λ p. is_told p.1 ≡ true → p.0 ≡ 5)

classes-Fifth : (p : Phase) → Fifth (classes p)
classes-Fifth fresh = tt
classes-Fifth joining = tt
classes-Fifth asking = tt
classes-Fifth pulling = (λ e. cc, tt)
classes-Fifth pushing = (λ e. cc, (λ e. cc, tt))
classes-Fifth serving = (λ e. cc, (λ e. cc, (λ e. refl, tt)))
classes-Fifth ended = (λ e. cc, (λ e. cc, (λ e. refl, tt)))

Fifth-lookup :
    (id : ℕ) (l : List (ℕ × Handler)) (h : Handler)
    → Fifth l
    → lookup id l ≡ some h
    → is_told h ≡ true
    → id ≡ 5
unfolding lookup
Fifth-lookup id [] h _ e t = cc
Fifth-lookup id ((j, k) ∷ l) h (x, xs) e t = elim (Bool-cases (is_eq (nat_ordered.cmp id j))) [
  | inl same ↦
      let found : some k ≡ some h = rw same refl ∙ e in
      let is : k ≡ h = cc in
      let at : id ≡ j = ground (arith, same, nat_ordered.cmp_eq id j) in at ∙ x (ap is_told is ∙ t)
  | inr other ↦ Fifth-lookup id l h xs (sym (rw other refl) ∙ e) t
]

-- The handler of the order to end is run for no other package.
pub told_of :
    (p : Phase) (pkg : Package) (h : Handler)
    → lookup (as_index pkg.meta.message_class) (classes p) ≡ some h
    → is_told h ≡ true
    → told_msg pkg ≡ 1
told_of p pkg h there t =
    let fifth =
      Fifth-lookup (as_index pkg.meta.message_class) (classes p) h (classes-Fifth p) there t in
    ground (arith, fifth)

-- What the main thread has waited for.
abbrev pub Waited : {H : Type 0} → Phase → Node H → Bool → Type 0
Waited fresh n flag = Unit
Waited joining n flag = Unit
Waited asking n flag = n.route_init ≡ true
Waited pulling n flag = (n.route_init ≡ true) × (n.hashfrag_init ≡ true)
Waited pushing n flag = (n.route_init ≡ true) × (n.hashfrag_init ≡ true)
Waited serving n flag = (n.route_init ≡ true) × (n.hashfrag_init ≡ true)
Waited ended n flag = (n.route_init ≡ true) × (n.hashfrag_init ≡ true) × (flag ≡ true)

pub Waited-transfer :
    {H : Type 0} (p : Phase) (n : Node H) (t : Transfer H Callback) (flag : Bool)
    → Waited p n flag
    → Waited p (record n { transfer = t }) flag
Waited-transfer fresh n t flag w = w
Waited-transfer joining n t flag w = w
Waited-transfer asking n t flag w = w
Waited-transfer pulling n t flag w = w
Waited-transfer pushing n t flag w = w
Waited-transfer serving n t flag w = w
Waited-transfer ended n t flag w = w

-- The flags are only set.
pub Waited-more :
    {H : Type 0} (p : Phase) (n n' : Node H) (flag flag' : Bool)
    → (n.route_init ≡ true → n'.route_init ≡ true)
    → (n.hashfrag_init ≡ true → n'.hashfrag_init ≡ true)
    → (flag ≡ true → flag' ≡ true)
    → Waited p n flag
    → Waited p n' flag'
Waited-more fresh n n' flag flag' r h f w = w
Waited-more joining n n' flag flag' r h f w = w
Waited-more asking n n' flag flag' r h f w = r w
Waited-more pulling n n' flag flag' r h f (a, b) = (r a, h b)
Waited-more pushing n n' flag flag' r h f (a, b) = (r a, h b)
Waited-more serving n n' flag flag' r h f (a, b) = (r a, h b)
Waited-more ended n n' flag flag' r h f (a, b, c) = (r a, h b, f c)

-- One class more.
pub register-keeps :
    {B : Type 0} (class : MsgCls) (h : Handler) (p p' : Phase) (t t' : Transfer Handler B)
    → t.message_class ≡ classes p
    → ((u u' : Transfer Handler B)
        → u.message_class ≡ classes p
        → register_handler class h u ≡ ok u'
        → u'.message_class ≡ classes p')
    → register_handler class h t ≡ ok t'
    → (t'.message_class ≡ classes p') × (t'.tasks ≡ t.tasks)
unfolding register_handler
register-keeps class h p p' t t' at adds run = (adds t t' at run, ground arith)

pub pull-classes :
    {B : Type 0} (t t' : Transfer Handler B)
    → t.message_class ≡ classes asking
    → register_handler MsgCls.worker_pull_request pull t ≡ ok t'
    → t'.message_class ≡ classes pulling
unfolding register_handler add lookup assign
pull-classes t t' at run =
    let made : register_handler MsgCls.worker_pull_request pull t
        ≡ ok (record t { message_class = classes pulling }) =
      ap (λ c. register_handler MsgCls.worker_pull_request pull (record t { message_class = c }))
        at in
    let same : ok (record t { message_class = classes pulling }) ≡ ok t' = sym made ∙ run in
    ground (arith, same)

pub push-classes :
    {B : Type 0} (t t' : Transfer Handler B)
    → t.message_class ≡ classes pulling
    → register_handler MsgCls.worker_push_request push t ≡ ok t'
    → t'.message_class ≡ classes pushing
unfolding register_handler add lookup assign
push-classes t t' at run =
    let made : register_handler MsgCls.worker_push_request push t
        ≡ ok (record t { message_class = classes pushing }) =
      ap (λ c. register_handler MsgCls.worker_push_request push (record t { message_class = c }))
        at in
    let same : ok (record t { message_class = classes pushing }) ≡ ok t' = sym made ∙ run in
    ground (arith, same)

pub told-classes :
    {B : Type 0} (t t' : Transfer Handler B)
    → t.message_class ≡ classes pushing
    → register_handler MsgCls.server_told_to_terminate told t ≡ ok t'
    → t'.message_class ≡ classes serving
unfolding register_handler add lookup assign
told-classes t t' at run =
    let made : register_handler MsgCls.server_told_to_terminate told t
        ≡ ok (record t { message_class = classes serving }) =
      ap
        (λ c.
          register_handler MsgCls.server_told_to_terminate told (record t { message_class = c }))
        at in
    let same : ok (record t { message_class = classes serving }) ≡ ok t' = sym made ∙ run in
    ground (arith, same)

-- ===== src/Listener.antt =====
-- src/core/transfer/Listener.h, with the threads that it starts: main_loop() of
-- src/core/transfer/transfer.h. The socket `_receiver` is the messages that wait at it, of which zmq
-- may give any as the next one, since it serves its peers in turn; what is sent to `recv_addr` arrives
-- there at some later time. A round of the loop is two steps: the receiving under the mutex,
-- and the handling after it, which other threads may interleave.
pub mod Serving
pub mod Ending
pub mod Setup
mod Tests
use swift_snails.Base.{
  ℕ, zero, suc, ◌+◌, ◌-◌, ◌<◌, ◌≡◌, List, [], ◌∷◌, ◌++◌, Option, none, some, Result, ok, abort,
  terminated, ◌>>=◌, ◌>>◌, check, check_failed, Bool, true, false, not, ◌&&◌, ℤ, pos, negsuc,
  eq_int, get_elem?, set, replicate, if◌then◌else◌,
}
use swift_snails.Strings.{String}
use swift_snails.Message.{Package}
use swift_snails.Sockets.{Bind, Interface, zmq_bind_random_port, get_local_ip}
use swift_snails.Transfer.{Transfer, service_complete, receive}

-- A message at the socket: the empty one, or a package.
pub data Frame : Type 0 where
  stop : Frame
  packed : Package → Frame

-- A thread in main_loop(): at the socket, with a package that it has received, and after the loop.
pub data Thread : Type 0 where
  receiving : Thread
  handling : Package → Thread
  left : Thread

pub record Listener : Type 0 where
  pub recv_addr : String
  pub recv_ip : String
  pub recv_port : ℤ
  pub thread_num : ℤ
  pub threads : List Thread

-- Listener()
unfoldable pub new_listener : Listener
new_listener = record {
  recv_addr = [];
  recv_ip = [];
  recv_port = negsuc 0;
  thread_num = negsuc 0;
  threads = [];
}

abbrev pub is_nil {ℓ} : {A : Type ℓ} → List A → Bool
is_nil [] = true
is_nil (x ∷ xs) = false

abbrev pub positive : ℤ → Bool
positive (pos zero) = false
positive (pos (suc n)) = true
positive (negsuc n) = false

-- the rounds of `for (int i = 0; i < x; i++)`
abbrev pub loop_rounds : ℤ → ℕ
loop_rounds (pos n) = n
loop_rounds (negsuc n) = 0

unfoldable pub set_thread_num : ℤ → Listener → Result Listener
set_thread_num num l = do check (positive num); ok (record l { thread_num = num })

unfoldable pub set_recv_ip : String → Listener → Result Listener
set_recv_ip ip l = do check (not (is_nil ip)); ok (record l { recv_ip = ip })

-- listen(), at what the system answers; `ok none` while it still tries ports
unfoldable pub listen : List Interface → List (ℕ × Bind) → Listener → Result (Option Listener)
listen interfaces tries l = do
  let ip = if is_nil l.recv_ip then get_local_ip interfaces else l.recv_ip
  check (eq_int l.recv_port (negsuc 0))
  found ← zmq_bind_random_port ip tries
  elim found [
    | none ↦ ok none
    | some (addr, port) ↦
        ok (some (record l { recv_ip = ip; recv_addr = addr; recv_port = pos port }))
  ]

-- listen(addr), at whether zmq_bind succeeds
unfoldable pub listen_at : String → Bool → Listener → Result Listener
listen_at addr binds l = do check binds; ok (record l { recv_addr = addr })

abbrev pub all_left : List Thread → Bool
all_left [] = true
all_left (receiving ∷ ts) = false
all_left (handling pkg ∷ ts) = false
all_left (left ∷ ts) = all_left ts

-- A node's listener with its Transfer, the messages at its socket, and the number of empty messages
-- that it has sent to itself and that have not arrived.
pub record Service (H B : Type 0) : Type 0 where
  pub listener : Listener
  pub transfer : Transfer H B
  pub inbox : List Frame
  pub on_the_way : ℕ

module _ {H B : Type 0} where
  abbrev pub with_threads : List Thread → Service H B → Service H B
  with_threads ts s = record s { listener = record s.listener { threads = ts } }

  -- service_start(): to assign to a thread that can be joined ends the process
  unfoldable pub service_start : Service H B → Result (Service H B)
  service_start s = do
    check (positive s.listener.thread_num)
    if is_nil s.listener.threads
        then ok (with_threads (replicate (loop_rounds s.listener.thread_num) receiving) s)
        else abort terminated

  -- service_end(), up to the joining
  unfoldable pub service_end : Service H B → Result (Service H B)
  unfolding service_complete
  service_end s = do
    check (not (is_nil s.listener.threads))
    check (service_complete s.transfer)
    ok (record s { on_the_way = s.on_the_way + loop_rounds s.listener.thread_num })

  -- the joining: `none` while it waits for a thread
  unfoldable pub join_threads : Service H B → Option (Service H B)
  join_threads s = if all_left s.listener.threads then some (with_threads [] s) else none

  -- A step of thread i.
  pub data Step : Service H B → Service H B → Type 0 where
    receives :
        (s : Service H B) (i : ℕ) (pkg : Package) (l r : List Frame)
        → get_elem? s.listener.threads i ≡ some receiving
        → s.inbox ≡ l ++ packed pkg ∷ r
        → Step s
            (with_threads (set s.listener.threads i (handling pkg)) (record s { inbox = l ++ r }))
    handles :
        (s : Service H B) (i : ℕ) (pkg : Package) (t : Transfer H B)
        → get_elem? s.listener.threads i ≡ some (handling pkg)
        → receive pkg s.transfer ≡ ok t
        → Step s (with_threads (set s.listener.threads i receiving) (record s { transfer = t }))
    stops :
        (s : Service H B) (i : ℕ) (l r : List Frame)
        → get_elem? s.listener.threads i ≡ some receiving
        → s.inbox ≡ l ++ stop ∷ r
        → Step s (with_threads (set s.listener.threads i left) (record s { inbox = l ++ r }))

  -- An empty message comes to the socket.
  abbrev pub delivered : Service H B → Service H B
  delivered s = record s { inbox = s.inbox ++ stop ∷ []; on_the_way = s.on_the_way - 1 }

  -- k steps of the threads, between which a packages and the empty messages arrive, and the rest of
  -- the process uses the Transfer.
  pub data Run : ℕ → ℕ → Service H B → Service H B → Type 0 where
    done : (s : Service H B) → Run 0 0 s s
    next : (k a : ℕ) (p q r : Service H B) → Run k a p q → Step q r → Run (suc k) a p r
    arrives :
        (k a : ℕ) (p q : Service H B) (pkg : Package)
        → Run k a p q
        → Run k (suc a) p (record q { inbox = q.inbox ++ packed pkg ∷ [] })
    delivers :
        (k a : ℕ) (p q : Service H B) → Run k a p q → 0 < q.on_the_way → Run k a p (delivered q)
    elsewhere :
        (k a : ℕ) (p q : Service H B) (t : Transfer H B)
        → Run k a p q
        → Run k a p (record q { transfer = t })

-- ===== src/Listener/Setup.antt =====
-- The Transfer of a node, as it is made at its first use: global_transfer() of
-- src/core/transfer/transfer.h, with std::stoi and the answers of the system as parameters.
use swift_snails.Base.{
  ℕ, ◌≡◌, List, [], ◌∷◌, Option, none, some, Result, ok, abort, check_failed, ◌>>=◌, Bool, true,
  false, ℤ, arith, replicate,
}
use swift_snails.Strings.{String}
use swift_snails.Config.{Dic, get_config, get_int32}
use swift_snails.Sockets.{Bind, Interface}
use swift_snails.Transfer.{opened}
use swift_snails.Listener.{
  Listener, Service, is_nil, positive, loop_rounds, receiving, new_listener, set_thread_num, listen,
  listen_at, service_start,
}

abbrev pub listen_addr_key : String
listen_addr_key = 108 ∷ 105 ∷ 115 ∷ 116 ∷ 101 ∷ 110 ∷ 95 ∷ 97 ∷ 100 ∷ 100 ∷ 114 ∷ []

abbrev pub async_exec_num_key : String
async_exec_num_key =
    97 ∷ 115 ∷ 121 ∷ 110 ∷ 99 ∷ 95 ∷ 101 ∷ 120 ∷ 101 ∷ 99 ∷ 95 ∷ 110 ∷ 117 ∷ 109 ∷ []

abbrev pub listen_thread_num_key : String
listen_thread_num_key =
    108 ∷ 105 ∷ 115 ∷ 116 ∷ 101 ∷ 110 ∷ 95 ∷ 116 ∷ 104 ∷ 114 ∷ 101 ∷ 97 ∷ 100 ∷ 95 ∷ 110 ∷ 117 ∷ 109
    ∷ []

-- What the system answers: whether the socket can be bound to a given address, the interfaces, and
-- the random ports with what their binding answers.
pub record System : Type 0 where
  pub binds : Bool
  pub interfaces : List Interface
  pub tries : List (ℕ × Bind)

-- listen(listen_addr) if there is one in the configuration, or else listen()
unfoldable pub listen_somewhere : System → String → Listener → Result (Option Listener)
unfolding listen
listen_somewhere sys [] l = listen sys.interfaces sys.tries l
listen_somewhere sys (c ∷ cs) l = do l' ← listen_at (c ∷ cs) sys.binds l; ok (some l')

module _ {H B : Type 0} where
  -- the body of the call_once; a channel of async_exec_num threads is opened
  unfoldable pub global_transfer :
      (String → Result ℤ) → System → Dic → Result (Option (Service H B))
  unfolding listen_somewhere set_thread_num service_start
  global_transfer stoi sys dic = do
    listen_addr ← get_config listen_addr_key dic
    async_thread_num ← get_int32 stoi async_exec_num_key dic
    service_thread_num ← get_int32 stoi listen_thread_num_key dic
    listening ← listen_somewhere sys listen_addr new_listener
    elim listening [
      | none ↦ ok none
      | some l ↦ do
        l' ← set_thread_num service_thread_num l
        s ← service_start (record { listener = l'; transfer = opened; inbox = []; on_the_way = 0 })
        ok (some s)
    ]

  -- With the three settings, a listen_addr to which the socket can be bound and some threads, the node
  -- listens at that address and all its threads are in their loops; with no threads a CHECK fails.
  pub global_transfer-serves :
      (stoi : String → Result ℤ) (sys : System) (dic : Dic) (addr : String) (async threads : ℤ)
      → get_config listen_addr_key dic ≡ ok addr
      → is_nil addr ≡ false
      → get_int32 stoi async_exec_num_key dic ≡ ok async
      → get_int32 stoi listen_thread_num_key dic ≡ ok threads
      → sys.binds ≡ true
      → global_transfer stoi sys dic ≡ (elim (positive threads) [
        | false ↦ abort check_failed
        | true ↦ ok (
            some (record {
              listener = record new_listener {
                recv_addr = addr;
                thread_num = threads;
                threads = replicate (loop_rounds threads) receiving;
              };
              transfer = opened;
              inbox = [];
              on_the_way = 0;
            }))
      ])
  unfolding global_transfer new_listener listen_at
  global_transfer-serves stoi sys dic [] async threads at some_addr a t b = cc
  global_transfer-serves stoi sys dic (c ∷ cs) async threads at some_addr a t b =
      rw (at, ◌>>=◌, a, t, b) (ground arith)

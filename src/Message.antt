-- ===== src/Message.antt =====
-- src/core/Message.h: the meta data and the content of a request, and the package in which the two
-- travel. A message of the network library is its bytes; the meta data, which is copied as the memory
-- of a struct, is that struct.
pub mod Packing
use swift_snails.Base.{
  ℕ, List, take, Option, none, some, Result, ok, ◌>>=◌, ◌>>◌, check, or_abort, out_of_bounds, ◌==◌,
  Bool, ℤ, pos, negsuc, eq_int,
}
use swift_snails.Buffer
use swift_snails.Buffer.{Buffer}

-- MetaMessage; `message_id` is an int that is only converted from and to the 32-bit index_t, and is
-- kept as such, so that -1 is 2^32 - 1. The field `addr` is not modelled.
pub record MetaMessage : Type 0 where
  pub message_class : ℤ
  pub client_id : ℤ
  pub message_id : ℕ

abbrev pub new_meta : MetaMessage
new_meta = record { message_class = pos 0; client_id = negsuc 2; message_id = 4294967295 }

-- Request, without its call_back_handler, which does not travel.
pub record Request : Type 0 where
  pub meta : MetaMessage
  pub cont : Buffer

-- Request()
unfoldable pub new_request : Request
new_request = record { meta = new_meta; cont = Buffer.new }

unfoldable pub set_msg_id : ℕ → Request → Request
set_msg_id id r = record r { meta = record r.meta { message_id = id } }

-- is_response()
unfoldable pub is_response : Request → Bool
is_response r = eq_int r.meta.message_class (negsuc 0)

unfoldable pub set_response : Request → Request
set_response r = record r { meta = record r.meta { message_class = negsuc 0 } }

unfoldable pub set_client : ℤ → Request → Request
set_client id r = record r { meta = record r.meta { client_id = id } }

-- set_worker(), set_server()
unfoldable pub set_worker : Request → Request
unfolding set_client
set_worker r = set_client (negsuc 0) r

unfoldable pub set_server : Request → Request
unfolding set_client
set_server r = set_client (negsuc 1) r

unfoldable pub is_worker : Request → Bool
is_worker r = eq_int r.meta.client_id (negsuc 0)

unfoldable pub is_server : Request → Bool
is_server r = eq_int r.meta.client_id (negsuc 1)

-- Package: the bytes of the content beside the meta data
pub record Package : Type 0 where
  pub meta : MetaMessage
  pub cont : List ℕ

-- Package(Request &)
unfoldable pub to_package : Request → Result Package
unfolding Buffer.size Buffer.copy_out
to_package r = do
  src ← or_abort r.cont.block out_of_bounds
  bytes ← Buffer.copy_out src 0 (Buffer.size r.cont)
  ok (record { meta = r.meta; cont = bytes })

-- Request(Package &&)
unfoldable pub of_package : Package → Result Request
unfolding Buffer.size Buffer.set
of_package p = do
  check (Buffer.size Buffer.new == 0)
  cont ← Buffer.set p.cont Buffer.new
  ok (record { meta = p.meta; cont = cont })

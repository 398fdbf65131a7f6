-- ===== src/Message/Packing.antt =====
-- A request that is packed by one node and unpacked by another.
use swift_snails.Base.{
  ℕ, ◌≡◌, ◌<◌, refl, List, [], ok, abort, check_failed, ◌>>=◌, Returns, arith, length,
}
use swift_snails.Buffer
use swift_snails.Buffer.{Buffer}
use swift_snails.Buffer.Contents.{Holds, new-Holds}
use swift_snails.Buffer.Replace.{set-Holds}
use swift_snails.Message.{Request, to_package, of_package}

pub to_package-Holds :
    (r : Request) {stored rest : List ℕ}
    → Holds stored rest r.cont
    → to_package r ≡ ok (record { meta = r.meta; cont = stored })
unfolding to_package
to_package-Holds r h = ground (arith, h.valid.owned, h.valid.sized, h.valid.fits, h.written)

-- A request with content arrives as it was sent: the same meta data, and all of its content, unread.
pub of_package-to_package :
    (r : Request) {stored rest : List ℕ}
    → Holds stored rest r.cont
    → 0 < length stored
    → Returns (to_package r >>= of_package) λ r'. (r'.meta ≡ r.meta) × Holds stored stored r'.cont
unfolding of_package Buffer.new
of_package-to_package r {stored} h pos =
    let (c, run, held) = set-Holds stored Buffer.new new-Holds pos in
    (record { meta = r.meta; cont = c }, rw (to_package-Holds r h, ◌>>=◌, run) refl, (refl, held))

-- A request without content stops the receiver: the CHECK of the size in set() fails.
pub of_package_empty :
    (r : Request) → Holds [] [] r.cont → (to_package r >>= of_package) ≡ abort check_failed
unfolding of_package Buffer.set Buffer.new
of_package_empty r h = rw (to_package-Holds r h, ◌>>=◌) refl

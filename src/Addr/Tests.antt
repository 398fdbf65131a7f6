-- ===== src/Addr/Tests.antt =====
-- Runs of the addresses.
use swift_snails.Base.{◌≡◌, refl, [], ◌∷◌}
use swift_snails.Addr.{Addr, to_string}
use swift_snails.Strings.Numerals.{decimal}

-- 10.0.0.255:8000
printed :
    to_string (record { addr_0 = 10; addr_1 = 0; addr_2 = 0; addr_3 = 255; port = 8000 })
    ≡ 49 ∷ 48 ∷ 46 ∷ 48 ∷ 46 ∷ 48 ∷ 46 ∷ 50 ∷ 53 ∷ 53 ∷ 58 ∷ 56 ∷ 48 ∷ 48 ∷ 48 ∷ []
unfolding to_string decimal
printed = refl

abbrev ip : Addr
ip = record { addr_0 = 10; addr_1 = 0; addr_2 = 0; addr_3 = 255; port = 8000 }

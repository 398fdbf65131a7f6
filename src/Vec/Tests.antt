-- ===== src/Vec/Tests.antt =====
-- Runs of the vectors, with the natural numbers for the machine's.
use swift_snails.Base.{ℕ, ◌+◌, ◌-◌, ◌*◌, ◌/◌, ◌≡◌, refl, [], ◌∷◌, some, abort, out_of_bounds, arith}
use swift_snails.Vec.{Floats, Vec, assign}
use swift_snails.Vec.Loops.{Has}
use swift_snails.Vec.Assign.{assign_overruns}

abbrev whole : Floats
whole = record {
  F = ℕ;
  literal_zero = 0;
  literal_one = 1;
  literal_minus_one = 0;
  add = ◌+◌;
  sub = ◌-◌;
  mul = ◌*◌;
  div = ◌/◌;
  root = λ x. x;
  draw = λ n i. i;
  garbage = 77;
}

abbrev three : Vec whole
three = record { block = some (1 ∷ 2 ∷ 3 ∷ []); size = 3 }

abbrev other_three : Vec whole
other_three = record { block = some (4 ∷ 5 ∷ 6 ∷ []); size = 3 }

abbrev two : Vec whole
two = record { block = some (8 ∷ 9 ∷ []); size = 2 }

three-Has : Has whole (1 ∷ 2 ∷ 3 ∷ []) three
three-Has = record { owned = refl; sized = refl; some_element = omega arith }

other_three-Has : Has whole (4 ∷ 5 ∷ 6 ∷ []) other_three
other_three-Has = record { owned = refl; sized = refl; some_element = omega arith }

two-Has : Has whole (8 ∷ 9 ∷ []) two
two-Has = record { owned = refl; sized = refl; some_element = omega arith }

assign_overruns_example : assign whole two three ≡ abort out_of_bounds
assign_overruns_example =
    assign_overruns whole (8 ∷ 9 ∷ []) (1 ∷ 2 ∷ 3 ∷ []) two three two-Has three-Has (omega arith)

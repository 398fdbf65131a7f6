-- ===== src/Framework/Tests.antt =====
-- A server that has sent its registration and is then asked for a parameter.
use swift_snails.Base.{
  ℕ, ◌≡◌, refl, arith, [], ◌∷◌, none, ok, abort, check_failed, false, true, pos, ◌-◌, ◌^◌, ◌+◌,
}
use swift_snails.Base.Map.{lookup, assign, nat_ordered}
use swift_snails.Base.HashMap.{list_map}
use swift_snails.Strings.{cut}
use swift_snails.Strings.Numerals.{decimal, strtoul}
use swift_snails.Addr.{from_string, put_addr}
use swift_snails.Buffer
use swift_snails.Buffer.Codec.{word32}
use swift_snails.Buffer.Words.{put_word}
use swift_snails.Message.{Package, to_package, set_server}
use swift_snails.Transfer.{opened, send, set_client_id}
use swift_snails.SparseTable
use swift_snails.Route.{new_route, register_node}
use swift_snails.NodeInit.{register_master, register_local_node_to_master}
use swift_snails.Framework.{fresh, goes_on, arrives, ServerSetup, SwiftServer, step, run_events}
use swift_snails.Framework.Classes.{early, classes}
use swift_snails.Framework.Starting.{IsFresh, Stage, run_events-Stage, early_request-aborts}

-- The addresses "1.2.3.4:8" and "1.2.3.4:9".
abbrev setup : ServerSetup
setup = record {
  V = ℕ;
  G = ℕ;
  hash_map = list_map ℕ (2 ^ 32 - 1);
  key_codec = word32;
  val_codec = word32;
  grad_codec = word32;
  pull_method = record { init_param = λ key p. key; get_pull_value = λ key p val. p };
  push_method = record { merge_push_value = λ key g h. g + h; apply_push_value = λ key p g. p + g };
  default = 0;
  show = decimal 20;
  master_addr = 49 ∷ 46 ∷ 50 ∷ 46 ∷ 51 ∷ 46 ∷ 52 ∷ 58 ∷ 56 ∷ [];
  recv_addr = 49 ∷ 46 ∷ 50 ∷ 46 ∷ 51 ∷ 46 ∷ 52 ∷ 58 ∷ 57 ∷ [];
}

initial : SwiftServer setup
initial = record {
  node = record {
    route = new_route;
    transfer = opened;
    hashfrag = record { nodes = 0; frags = 0; map_table = none };
    route_init = false;
    hashfrag_init = false;
  };
  push_state = record {
    table = SparseTable.new (list_map ℕ (2 ^ 32 - 1)) 2;
    push_counter = 0;
    param_backup_period = 0;
    backups = [];
  };
  printed = [];
  told_to_end = false;
  phase = fresh;
}

initial-IsFresh : IsFresh initial
unfolding initial
initial-IsFresh = record { at_start = refl; no_class = refl; no_task = refl }

joined : SwiftServer setup
unfolding initial run_events register_master register_local_node_to_master
joined = elim (run_events setup (goes_on ∷ []) initial) [ ok s ↦ s | abort why ↦ initial ]

joins : run_events setup (goes_on ∷ []) initial ≡ ok joined
unfolding joined register_node lookup from_string strtoul cut put_addr put_word Buffer.put_raw
    Buffer.new send set_client_id to_package set_server assign
joins = refl

asked_early : early joined.phase ≡ true
unfolding joined register_node lookup from_string strtoul cut put_addr put_word Buffer.put_raw
    Buffer.new send set_client_id to_package set_server assign
asked_early = refl

-- A request for a parameter, of worker 8.
abbrev request : Package
request = record {
  meta = record { message_class = pos 2; client_id = pos 8; message_id = 0 };
  cont = 7 ∷ 0 ∷ 0 ∷ 0 ∷ 0 ∷ 0 ∷ 0 ∷ 0 ∷ [];
}

initial_untold : initial.told_to_end ≡ false
unfolding initial
initial_untold = refl

run_events-Stage_example :
    (joined.node.transfer.message_class ≡ classes joined.phase)
    × Stage setup initial joined.phase 0 joined
run_events-Stage_example =
    run_events-Stage setup initial (goes_on ∷ []) joined initial-IsFresh initial_untold joins

early_request-aborts_example : step setup (arrives request) joined ≡ abort check_failed
early_request-aborts_example =
    early_request-aborts setup initial (goes_on ∷ []) joined request initial-IsFresh joins
      asked_early (omega arith) refl

-- ===== src/SwiftMaster/Tests.antt =====
-- A master with one server and one worker, from the start to the order to end.
use swift_snails.Base.{[], ◌∷◌, ok, abort, List, none, true, pos}
use swift_snails.Base.Map.{nat_ordered}
use swift_snails.Buffer
use swift_snails.Message.{Package}
use swift_snails.Transfer.{opened}
use swift_snails.Master.{Master}
use swift_snails.Master.Examples.{address}
use swift_snails.Terminate.{new_terminate}
use swift_snails.SwiftMaster.{fresh, Event, goes_on, arrives, runs_task, SwiftMaster, run_events}

-- Server 1 and worker 8 have registered.
abbrev registered : Master
registered =
    let addrs = (0, address 1) ∷ (1, address 2) ∷ (8, address 3) ∷ [] in
    record {
      route = record {
        base = record {
          senders = addrs;
          send_addrs = addrs;
          send_mutexes = (0, tt) ∷ (1, tt) ∷ (8, tt) ∷ [];
        };
        server_num = 2;
        worker_num = 1;
        server_ids = 0 ∷ 1 ∷ [];
        worker_ids = 8 ∷ [];
      };
      hashfrag = record { nodes = 0; frags = 0; map_table = none };
      init_msg_ids = (1, 0) ∷ (8, 0) ∷ [];
      registered_node_num = 2;
      registered_server_num = 1;
      expected_node_num = 2;
      route_init = true;
    }

initial : SwiftMaster
initial = record {
  transfer = record opened { client = pos 0 };
  master_init = registered;
  terminate = new_terminate;
  phase = fresh;
}

-- The last message of the worker.
abbrev finished : Package
finished = record {
  meta = record { message_class = pos 4; client_id = pos 8; message_id = 0 };
  cont = 7 ∷ 0 ∷ 0 ∷ 0 ∷ [];
}

abbrev events : List Event
events = goes_on ∷ goes_on ∷ arrives finished ∷ runs_task ∷ goes_on ∷ []

told : SwiftMaster
unfolding initial run_events
told = elim (run_events 2 events initial) [ ok s ↦ s | abort why ↦ initial ]

-- ===== src/Listener/Tests.antt =====
-- A listener with one thread.
use swift_snails.Base.{ℕ, ◌+◌, ◌*◌, ◌≤◌, ◌≡◌, refl, arith, [], ◌∷◌, ok, pos}
use swift_snails.Transfer.{opened}
use swift_snails.Listener.{
  Service, receiving, left, new_listener, with_threads, service_start, service_end, stops, done,
  next, delivers, delivered,
}
use swift_snails.Listener.Serving.{work, stops_in}
use swift_snails.Listener.Ending.{Goes, service_end-joins}

abbrev idle : Service ℕ ℕ
idle = record {
  listener = record new_listener { thread_num = pos 1 };
  transfer = opened;
  inbox = [];
  on_the_way = 0;
}

abbrev serving : Service ℕ ℕ
serving = with_threads (receiving ∷ []) idle

abbrev told : Service ℕ ℕ
told = record serving { on_the_way = 1 }

abbrev ended_service : Service ℕ ℕ
ended_service = with_threads (left ∷ []) (record told { inbox = []; on_the_way = 0 })

no_stop : stops_in idle.inbox + idle.on_the_way ≡ 0
unfolding stops_in
no_stop = refl

starts : service_start idle ≡ ok serving
unfolding service_start new_listener
starts = refl

ends : service_end serving ≡ ok told
unfolding service_end new_listener
ends = refl

service_end-joins_example : (1 ≤ work told + 2 * 0) × Goes ended_service
service_end-joins_example =
    service_end-joins idle serving serving told ended_service 0 1 0 0 no_stop starts (done serving)
      ends
      (next 0 0 told (delivered told) ended_service
        (delivers 0 0 told told (done told) (omega arith))
        (stops (delivered told) 0 [] [] refl refl))

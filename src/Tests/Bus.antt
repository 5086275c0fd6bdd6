-- ===== src/Tests/Bus.antt =====
-- The bus of internal/events/bus.go on a short run.
use thornhill.Base.{◌≡◌, refl, true, false, none, some, List, [], ◌∷◌, ◌++◌}
use thornhill.Events.Bus.{
  Bus, Publication, Op, publishes, subscribes, pumps, persists, new_bus, publish, subscribe, pump,
  persist_next, close, enqueue_persistence, push_item, step, run,
}
use thornhill.Events.Bus.Invariant.{Inv, bus_run-Inv}
use thornhill.Events.Bus.Queue.{persistence}
use thornhill.Events.Bus.Replay.{history, last_of, subscribe_replays}
use thornhill.Events.Bus.Shutdown.{closed_drains}

abbrev queued : Publication
queued = record {
  now = 10;
  kind = "job.queued";
  job_id = "01J";
  payload = some "{}";
  synchronous = false;
  freed = false;
}

abbrev traffic : List Op
traffic =
    publishes queued
    ∷ subscribes true
    ∷ publishes (record queued { kind = "job.done" })
    ∷ pumps 0
    ∷ persists
    ∷ []

bus_run-Inv_example : Inv (run (new_bus true) traffic)
bus_run-Inv_example = bus_run-Inv true traffic

ring_holds_both : (run (new_bus true) traffic).seq ≡ 2
unfolding run step new_bus publish enqueue_persistence subscribe pump persist_next push_item
ring_holds_both = refl

subscribe_replays_example :
    let b = run (new_bus true) traffic in
    let recent = last_of 256 (history (new_bus true) traffic) in
    (b.ring ≡ recent)
    × ((subscribe true b).subs
        ≡ b.subs
          ++ record { id = b.next_sub; ch = []; back = recent; held = none; out = []; unread = 0 }
            ∷ [])
subscribe_replays_example = subscribe_replays true traffic

abbrev stopping : Bus
unfolding new_bus publish enqueue_persistence close push_item
stopping = close (publish queued (new_bus true)).bus

closed_drains_example :
    (persistence (run stopping traffic) ≡ persistence stopping)
    × ((run stopping traffic).persist_closed ≡ true)
unfolding new_bus publish enqueue_persistence close push_item
closed_drains_example = closed_drains stopping traffic refl

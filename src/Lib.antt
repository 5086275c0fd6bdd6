-- ===== src/Lib.antt =====
-- A verification library for Thornhill, the single-operator voice desk for a fleet of Hermes agents
-- (a Go program). Speech reaches the desk, the desk starts and steers jobs, a broker runs each job as
-- an upstream run and asks the operator before a dangerous step, the tables keep the jobs, and an
-- event bus tells the browser. The files, by the part of the program they model:
--
-- Base, Base/*: numbers, lists, texts and tests that the parts share. Numbers are natural; times are
--   milliseconds in the desk and seconds in the store and Notify, and no counter of the modelled code is near its machine bound. `decimal` has a fuel
--   of the number plus one, which exceeds the count of its digits.
-- Desk/Fsm (internal/desk/fsm.go, type FSM): the session's states, the timers, the admission of one
--   response at a time and the drain before a park. One function per method; the mutex makes each one
--   step. Fsm/Invariant, Ladder, Admission and Drain prove.
-- Desk/Session, Desk/Server, Desk/Loop (internal/desk/desk.go, type Desk): the handlers of the realtime server's
--   events, of finished tool batches, of the tick and of injected texts, each a step of one
--   goroutine; `Input` lists them. Loop/Requests, Budget and ServerBudget prove. What the realtime
--   client, the summaries and the attention table answer is an argument.
-- Events/Bus (internal/events/bus.go, type Bus): numbering, the ring for replay, subscribers with a
--   bounded channel, and the persistence queue. A locked region or a round of a goroutine is a step,
--   so that a run is any interleaving. Bus/Order, Queue, Invariant, Replay and Shutdown
--   prove.
-- Store/Job, Store/Jobs (internal/store/store.go): job rows, the update that every writer uses, the
--   dispatch guard of the schema, and the one-use claim and the parking of a request. A transaction is
--   one step. Jobs/Update and Jobs/Authority prove.
-- Store/Outbox (internal/store/store.go, attention_events, push_subscriptions and push_deliveries): what
--   the operator has still to be told, the leases on it, and the deliveries that each subscribed
--   browser is owed. Outbox/Push and Outcomes are the deliveries; Leases, Exclusive and Spoken prove. A lease on
--   attention rows ends by the clock of the process and is judged by the database's `now()`, two arguments of
--   the claim. For the deliveries, their leases and their retry times, the two clocks are taken to agree. The texts
--   of a row are not those of attentionForTransition, which are prose.
-- Notify (internal/notify/notify.go, type Worker): the pass that sends the due deliveries while no voice
--   session is live; Notify/Worker composes the operations of Store/Outbox. Delay, Live and Retries/*
--   prove. The provider's answers and the moments at which the voice becomes live are an `Answer`
--   per delivery.
-- Bridge (internal/bridge/hermes.go, type Hermes): the broker's memory, the calls it sends and the
--   answers it meets (`World`). Policy holds the reusable decisions, Cleanup the proof that a run has
--   ended, Indeterminate the record of an unknown outcome, Parking, Decide and Request the operations,
--   Ownership which worker holds a job, Turn one turn of a job with its event stream (`Input` lists
--   what the loop waits for), Reply, Prompt and Settle the texts and the end of a turn, Runs the work on
--   one delivery of a job (`Passage` is what it meets), Orphans the reconciliation at a restart.
--   Authority, Posts, Warrant, Effect, Standing, Waiting, Kept, Grants,
--   Handles, Fence, Closing/*, Ending/* and Restart/* prove. The broker uses Store/Jobs for its tables;
--   what other writers do between its reads and writes is a function in `World`.
-- Dispatch (internal/dispatch/dispatch.go, type Dispatcher): the commands Cancel, Answer and Resume, and
--   in Naming Dispatch and Rename, over Store/Jobs. Atomic, Races and Cancelling prove.
-- Tests/*: runs at concrete inputs.
--
-- Not modelled: logging; the transport (HTTP, websockets, SQL, JSON), whose answers are arguments;
-- SHA-256, which is an argument; the gateway, the configuration, the summaries and the speech call;
-- of the push worker, the loop that wakes it and the filter on addresses; of the desk, the tools and the prompts; of the broker, the reading
-- of a session's history, the decoding of the stream and the retries in the background beyond their
-- being scheduled; of the store, a lost connection and the search by name.
pub mod Base
pub mod Bridge
pub mod Desk
pub mod Dispatch
pub mod Events
pub mod Notify
pub mod Store
pub mod Tests

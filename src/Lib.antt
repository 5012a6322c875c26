-- ===== src/Lib.antt =====
-- Showtime connects programs over a network: each client (a performer) publishes a tree of
-- entities, and cables carry values from output plugs to input plugs. A server, the stage, keeps
-- a copy of every tree and passes on what changes. This library models the parts of the C++
-- sources that carry that logic, and proves what makes them correct. A text is a list of byte
-- values, a result that may throw is a value of Common.Results, and the thread locks are left
-- out: a call is one step.
--
-- The parts, with the sources that each models:
--
-- - Common holds the names and lemmas that the other modules share.
-- - Uri (src/core/ZstURI.cpp) models the paths of entities, cut at `/` into segments. `construct`
--   is the constructor, which writes behind its array of 255 segments if there are more, and
--   `init` what it leaves otherwise, which the other modules use; `range`, `parent`, `first`,
--   `last` and `concat` are the methods that build new paths, `contains`, `equal`, `less` and
--   `hash` those that compare them. Split, Join, Range, Parent, Contains and Order prove what
--   they do.
-- - CableAddress (src/core/ZstCableAddress.cpp) models the pair of paths that names a cable, its
--   order, which the sets of cables use, and the table that is sent.
-- - Dispatcher (src/core/ZstEventDispatcher.hpp) models the set of adaptors and the queue of
--   events. Its loop takes fuel: one more than the events where none defers another, and
--   otherwise one more than the weight of the queue, for any weight that falls.
-- - Sync (src/core/ZstSynchronisable.cpp) models the activation state machine of entities and
--   cables over that dispatcher. `step` takes one call, `run` a list of them; Told says what each
--   event does, Settle and Pending what the calls do together, and Destroyed what the destroyed
--   flag is.
--
-- - OrderedSet is `std::set` as the code uses it, with the laws that an order needs.
--
-- - World (src/core/entities, src/core/ZstHierarchy.cpp) is the heap of entities and the map of
--   paths by which they are found; World.Plug (src/core/entities/ZstPlug.cpp) is what a plug does
--   with its cables.
--
-- - Cable (src/core/ZstCable.cpp) and Session (src/core/ZstSession.cpp) model the cables: their
--   creation, the connection of two plugs, their destruction, and the clean-up that the reaper
--   does after the deferred events of src/core/ZstSynchronisableModule.cpp. Create, Connect,
--   Destroy and Performers prove what the operations do.
--
-- - StageSession (src/server/ZstStageSession.cpp, with the sending of
--   src/server/ZstStageHierarchy.cpp) models the server's requests for cables and observation.
--   `create_cable_handler` and `observe_entity_handler` are the handlers, `connect_clients` the
--   handshake between two clients, and `answer` the response to it, which comes later.
--   StageSession.Ownership models `aquire_entity_ownership_handler`. Connected and Refused prove
--   who is told what. Samples has the objects of the tests.
--
-- - Heartbeat (src/core/entities/ZstPerformer.cpp, src/server/ZstStage.cpp) models the heartbeat
--   of a client and the loop of `stage_heartbeat_timer` that finds the silent ones; Silence
--   proves when a client is found. StageHierarchy.Timer has the whole timer, with the removal.
--
-- - Supervisor (src/core/ZstMessageSupervisor.cpp, and `blocking_send` of
--   src/core/transports/ZstTransportLayerBase.hpp) models the requests that wait for a response;
--   Answers proves what a request leaves behind when it is answered, times out, or is answered
--   late.
--
-- - Tree (src/core/entities/ZstEntityBase.cpp, ZstComponent.cpp, ZstPerformer.cpp and the
--   registration of src/core/ZstHierarchy.cpp) models the tree of entities: `set_parent`,
--   `add_child`, `remove_child`, `set_name` and the paths that they change. `set_parent` calls
--   itself for the children, as deep as its argument `stack`, which stands for the stack of the
--   program: an operation that needs more gives `out_of_fuel`, and one level is enough for an
--   entity without children (Leaf).
--
-- - Hierarchy (src/core/ZstHierarchy.cpp) models the queries over that tree; its children Proxies
--   and Removal the entities that messages describe, their destruction, and the reaper. Reach has
--   a step relation for the operations in any order, Freed and Detached what becomes of a proxy
--   that is removed.
--
-- - StageHierarchy (src/server/ZstStageHierarchy.cpp) models the server's hierarchy: what it
--   sends, and in Handlers its message handlers and `on_receive_msg`. Reach has the steps of the
--   server, Sent and Taken what clients are told.
--
-- - Value (src/core/ZstValue.cpp) models the values of plugs and the table they are sent as;
--   RoundTrip proves what a receiver holds and which texts can be read.
--
-- - ClientHierarchy (src/client/ZstClientHierarchy.cpp) models the client's side: the performer
--   of its own, which it finds beside the lookup, and the handlers of the server's broadcasts,
--   over the functions of Hierarchy. Own is about the messages that concern its own entities,
--   Reach about the messages in any order. What the client overrides beside them, as the
--   deactivation of entities, and its processing of events are left out.
--
-- - Firing (`ZstOutputPlug::fire` of src/core/entities/ZstPlug.cpp) joins Session and Value: the
--   loop over the cables of an output, which hands its value to the inputs of its own client, and
--   the message to each transport. Published proves what is sent.
--
-- Not modelled are the network transports, the actors and timers, logging, the plugin loader and
-- the bindings to other languages, which are input and output or call other libraries. The
-- client's requests and its session are outside this library too.
pub mod Common
pub mod Uri
pub mod CableAddress
pub mod Dispatcher
pub mod Sync
pub mod OrderedSet
pub mod World
pub mod Cable
pub mod Session
pub mod StageSession
pub mod Samples
pub mod Heartbeat
pub mod Supervisor
pub mod Tree
pub mod Hierarchy
pub mod StageHierarchy
pub mod Value
pub mod ClientHierarchy
pub mod Firing

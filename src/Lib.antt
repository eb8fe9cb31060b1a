-- ===== src/Lib.antt =====
-- The SC-API client library (C++): a client of the service of a wheel base that speaks BSON over a TCP
-- connection and reads shared memory. The development models its core parts.
--
-- - Bytes: byte buffers and the little-endian integers in them, as core/src/util/bson_reader.cpp and
--   bson_builder.cpp read and write them with memcpy. An access outside a buffer has no result, where
--   C++ leaves the behaviour undefined.
-- - Bson/Types: the element types (core/inc/sc-api/core/util/bson_reader.h and bson_builder.cpp).
-- - Bson/Value, Bson/Layout: documents as trees, their bytes, and how open documents lie in a
--   buffer. They are the independent description and model no code.
-- - Bson/Builder: `BsonBuilder` of core/src/util/bson_builder.cpp. The fields of the class are the
--   record `Builder`; each method is a function that returns its result with the new builder. `Keys` is
--   `fillArrayDocKey`, `Elements` the methods that add an element or open a document. `Shape` is the
--   invariant of a builder; `Prepare`, `Add`, `Insert`, `Nest`, `Close` and `Scalars` hold what the
--   methods do; `Build` and `Whole` put them together to whole documents.
-- - Bson/Reader: `BsonReader` of core/src/util/bson_reader.cpp: the constructor with a size, `next`,
--   `beginSub`, `endSub` and `validate`. `Key` and `Value` hold what is read of an element, `Next` one
--   call of `next`, `Validate` a round of `validate` and `Total` the whole of it. `Pass`, `Cross`,
--   `Accept` and `RoundTrip` follow `validate` over what the builder writes. `Seek` has the methods
--   that look for an element, `Get` those that give its value; `Walk` leads a client from element to
--   element, into a document and out of it, `Values` gives what it reads there, and `Find` is `seekKey`
--   on a tree.
-- - Session/Framing: how the session cuts the TCP stream into packets, `startReceive` and
--   `tryParsePacket` of core/src/session.cpp. `Frames` is the independent description of a cut stream,
--   `Loop` the loop, `Parse` one call, `Stream` a sequence of receive completions.
-- - Session/Commands: the queue of commands that are written to the TCP socket and the callbacks of
--   their results, in core/src/session.cpp. A link's history is a list of steps: a command, the
--   completion of a write, an answer, the closing of the socket. `Order` is what is written and when,
--   `Callbacks` how often a callback is called.
-- - Session/Control: the states of a session in core/src/session.cpp, with `periodicUpdate`, `close`,
--   `disconnected` and the arguments and the end of `registerToControl`. `KeepAlive` is how the loss of
--   the service is noticed.
-- - Action: `ActionBuilder` of core/src/action.cpp, the packets of actions that go out by UDP. `Build`
--   is one packet, `Send` the datagram of several.
-- - Telemetry: `TelemetryUpdateGroup`, the handles and the definitions of core/src/telemetry.cpp and
--   core/inc/sc-api/core/telemetry.h. Handles stand in a store, since groups share them. `Order` is
--   what is known of `std::sort`, which is a parameter (`Sort` fills it, `Ids` follows
--   the ids), `Tally` the counters, `Register` the registration, `Append`, `Bools` and `Send` the
--   packet of values, `Configure` the two together; `System` is `TelemetrySystem`, which reads the
--   definitions from shared memory, each read of the header with the block as it is then, and
--   `System/Inside` where it reads. Groups send with `Action`.
-- - Types: `Type` of core/inc/sc-api/core/type.h and core/src/type.cpp, with the macros of
--   core/inc/sc-api/core/protocol/types.h.
-- - Shm: `BsonShmDataProvider` of core/src/shm_bson_data_provider.cpp with `shmTryAtomicDataAccess` of
--   core/src/compatibility.h, which copy a document from memory that another process writes. The block
--   is a function of time and each read has a time. That the block stands still between two reads of
--   the same even counter is what the header of the block documents, and a named hypothesis, `IsQuiet`.
--   The copy is checked with `Bson/Reader`.
-- - Variables: `VariableProvider` and `VariableDefinitions` of core/src/variables.cpp, which copy the
--   definitions of shared variables from shared memory and search them. A block is its bytes at the
--   time of a call. `Search` is the search map, `Refresh` one call of `refreshDefinitions`, `Updates`
--   all calls from `initialize` on, and `Find` the searches.
-- - SimData: core/src/sim_data.cpp and core/src/sim_data_builder.cpp, clients of `BsonReader` and
--   `BsonBuilder`. `Sections` and `Parse` hold `parseFromRaw` against the tree of its document, `Keys`
--   the keys of participants and tires, `Participants` the two together, and `Update` is
--   `SimDataUpdateBuilder`.
-- - Device: core/src/device_info.cpp, a client of `BsonReader`, with the structs of
--   core/inc/sc-api/core/device_info.h. `Names` are the tables of
--   core/inc/sc-api/core/device_info_definitions.h and `Lookup` that they are read back; `Device` has
--   the controls, inputs and feedbacks of a device, `Hid` the inputs of its descriptor, `Info` the
--   device and the searches. `Each` is a loop over the elements of a tree, `Parts` and `Data` the loops
--   of the parser, and `Parse` the whole of `DeviceInfo::Data::parse` and `Devices` a buffer of devices.
-- - Ffb: core/src/ffb.cpp with the payloads of core/inc/sc-api/core/protocol/actions.h, in a session
--   that is not secure; it sends with `Action`. `Effect` is the datagram of an effect.
-- - Time: `Clock::now` of core/inc/sc-api/core/time.h.
-- - Events: `EventQueue` and `EventProducer` of core/inc/sc-api/core/util/event_queue.h. What other
--   threads do is a list of steps between the steps of a method. The condition variable is the number
--   of its notifications, and a thread that waits looks at the queue again only when the number has
--   changed; one thread at a time waits in a queue. `Queue` is the order of the events, `Wait` the
--   blocking pops, `Producer` the registered queues.
--
-- A session calls `tryParsePacket` after each completed receive; the packets that go on to
-- `parsePacket` are its output. The builder makes the packets that are sent.
--
-- Integers of 32 bits are bit patterns, naturals with `% 2 ^ 32` written out; a sum of `int32_t` that
-- overflows in the reader has no result. Loops run on fuel: the
-- loop of `tryParsePacket` on one more than the bytes used, since a round takes a byte at least; the
-- loop of `fillArrayDocKey` on one more than the index, since a round divides it by 100; `readKey` on
-- one more than the bytes of the document that are left; `validate` on two rounds for each byte and
-- two more, since an element takes two bytes at least and each document opened is closed once; the
-- loop of the seek methods, and those of `parseFromRaw` and of the devices, on two rounds more than the document has
-- bytes. How a `std::vector` grows is
-- a parameter, `grown`, with the record `Grows` of what is known of it; so are the conversions of
-- `double` and what the socket reports.
--
-- Not modelled: the sockets, threads and shared-memory handles, which are system calls; the copies of
-- other projects under core/src/crypto and core/src/libeddsa, and with them the encryption; the
-- opening of sessions in core/src/api_core.cpp, the requests of commands, and the application layer.
pub mod Common
pub mod Bytes
pub mod Bson
pub mod Session
pub mod Action
pub mod Telemetry
pub mod Types
pub mod Time
pub mod Events
pub mod Variables
pub mod SimData
pub mod Device
pub mod Ffb
pub mod Shm

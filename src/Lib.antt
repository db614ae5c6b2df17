-- ===== src/Lib.antt =====
-- ProcessManagerService is a C++ library from which services are built. A service connects to a
-- watchdog over TCP, listens for requests and subscriptions of other modules over UDP, and hands
-- them to the callbacks that its task has registered.
--
-- Parts and files, with paths from the root of the repository:
-- - Logging: the static log of Source/include/Logging.hpp. The other parts leave their messages out.
-- - Types: the identifiers of Source/src/Types.cpp (`toModuleIdentifier` is `to_module_identifier`), and
--   their kinds as types (Types/Kinds).
-- - Event: the callbacks of Source/include/Event.hpp, as functions on a state of the user, and the
--   loop `getNewEventID` that both caches run (Event/Ids).
-- - MessageEventsCache, SubscriptionEventsCache, ModulesCache: the caches of
--   Source/src/ServiceMessageEventsCache.cpp, ServiceSubscriptionEventsCache.cpp and
--   ServiceModulesCache.cpp. Their maps and vectors are lists in the order of iteration.
--   SubscriptionEventsCache/Locking has the rounds of its loops under the shared mutex, as a relation, with
--   how the threads that hold it end (Locking/Finishing), and SubscriptionEventsCache/Recipients a view of the subscribers that forgets their order.
-- - EventManager: Source/src/EventManager.cpp, through which a task registers its callbacks.
-- - MessageQueue and Connection: the framed connection of Source/include/Connection.hpp, in two halves,
--   Connection/Write and Connection/Read. Each function that starts an operation of asio records it,
--   and each completion handler is a function (`postWriteMessageHeader` is
--   `post_write_message_header`); a completion is a step of the environment. Connection/Runs has
--   histories of such steps, Connection/Stream the stream that they are to produce, Connection/Drain
--   and Connection/Stall what becomes of a queue, Connection/Delivered what another connection
--   reads of it, Connection/Safety what keeps a connection from undefined
--   behaviour, and Connection/Race a thread in `sendMessage` beside another one, or beside the handlers of
--   the writes.
-- - WatchdogConnectionState: Source/src/ServiceWatchdogConnectionState.cpp, with its waits.
-- - WatchdogResponseHandlers: Source/src/ServiceWatchdogResponseHandlers.cpp; its Scenarios run the
--   tests of Tests/ServiceWatchdogResponseHandlersTests on the model.
-- - WatchdogConnection: Source/src/ServiceWatchdogConnection.cpp, a Connection whose derived part is the
--   sequence code and the connection state; WatchdogConnection/Runs has its histories,
--   WatchdogConnection/Pings the pings of a connected service.
-- - MongoModulesCollection: Source/src/MongoModulesCollection.cpp.
-- - ContextWorker: the UDP worker of Source/src/ServiceContextWorker.cpp, which calls the caches and the
--   modules' collection. ContextWorker/Moves has its moves, ContextWorker/Overlap its read handlers on several
--   threads, ContextWorker/Sent what it sends to the worker of another service.
-- - DbEnvironment: the static instance of Source/src/MongoDbEnvironment.cpp, whose client it uses.
-- - SystemManager: Source/src/SystemManager.cpp and SystemManagerMain.cpp, a program beside the services.
-- - Configuration: Source/src/ServiceConfiguration.cpp and ServiceConfigurationReader.cpp, with the static
--   instance in Configuration/Instance, and what a read writes to the log in Configuration/Printing.
-- - ServiceBase: Source/src/ServiceBase.cpp, ServiceModulesServer.cpp and ServiceMain.cpp, the order in
--   which all of these are started; ServiceBase/Threads has the threads that run asio's contexts, and
--   the destructor that ends them, ServiceBase/Pinging a service that is connected and goes on.
-- - ExampleService: the service of Tests/ExampleServicesTests/ServiceOneTest, with its callbacks and task,
--   what it does without a database (ExampleService/Database), and with updates that overlap
--   (ExampleService/Updates).
-- - MessageEventsTest: Tests/MessageEventsTests/MessageEventsTest.cpp, the test of the events.
-- Prelude has what the parts share; Prelude/Calls has how a C++ call ends: `returned`, `threw`, or
-- `undefined` where the source runs into undefined behaviour.
--
-- Bounds: a w-bit integer is a number below 2 ^ w, and its arithmetic is taken modulo 2 ^ w. No
-- function has fuel: the loops of the source run over finite sequences, and a history is the list of
-- the steps that the environment takes.
--
-- Interleavings: a handler of asio is one step, except in Connection/Race, where `sendMessage` and the
-- handler of a written body are split, and in ContextWorker/Overlap, where the handler of a read is split
-- where it copies what the next read overwrites, and goes on as one step once it has its copies. The
-- methods under a lock are one step each, except in SubscriptionEventsCache/Locking, where the loops over
-- the events are split.
--
-- Parameters: the generated code of the protocols, the database, boost's endpoints, whether asio sends
-- a datagram before `async_send_to` returns, the task of a service, and whether an allocation succeeds, which in the histories of the connection to the
-- watchdog it does. A message is what the generated accessors return.
--
-- Not modelled: what goes to std::cout, and the messages that the parts other than the reader of the
-- configuration log; the destructors of the single parts, which the compiler writes; the times at which asio's threads run; and the collection of users,
-- whose header the repository does not have.
mod Prelude
pub mod Logging
pub mod Types
pub mod Event
pub mod MessageEventsCache
pub mod SubscriptionEventsCache
pub mod ModulesCache
pub mod EventManager
pub mod MessageQueue
pub mod Connection
pub mod WatchdogConnectionState
pub mod WatchdogResponseHandlers
pub mod WatchdogConnection
pub mod MessageEventsTest
pub mod MongoModulesCollection
pub mod ContextWorker
pub mod DbEnvironment
pub mod SystemManager
pub mod Configuration
pub mod ServiceBase
pub mod ExampleService

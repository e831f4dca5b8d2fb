-- ===== src/Lib.antt =====
-- socket-tester: a NestJS backend that opens WebSocket, Socket.IO, MQTT and AMQP connections for a
-- browser, records what happens on them and forwards it to the browser over a control channel.
--
-- The parts of the backend (src/ of the repository) and their files here:
--   * Session: src/session/session.service.ts and session.types.ts, one session for each connection,
--     with its status, counters, latency samples, topics and buffered messages; SessionService.create
--     is `create`, updateStatus is `update_status`, and so on for each method.
--   * Log: src/log/log.service.ts, the bounded log of each connection.
--   * Network: src/network/network-condition.service.ts, the simulated network of each connection.
--   * Stats: src/stats/stats.service.ts, figures computed from the sessions.
--   * Share: src/share/share.service.ts, shared configurations without credentials.
--   * Gateway: src/events/events.gateway.ts, what a joining browser is told, and `emitToConnection`.
--   * WebSocket and WebSocket/Handlers: src/websocket/websocket.service.ts, its methods and the
--     handlers of its sockets. A handler is one function from state to state, named after its event.
--   * Mqtt, SocketIo, Amqp: src/mqtt/mqtt.service.ts, src/socketio/socketio.service.ts and
--     src/amqp/amqp.service.ts in the same way. ClientOptions holds the options that they give to
--     their client libraries, Closing the callbacks that they store in `session.close`. Amqp/Channel
--     has the operations on the channel of an open AMQP connection.
--   * Performance and Performance/Sending: src/performance/performance.service.ts, the latency test,
--     the guards and results, and the loop of the throughput test.
--   * Client/Tabs and Client/Workspaces: src/client/src/stores/connectionStore.ts and
--     workspaceStore.ts, the tabs and the workspaces of the browser, each a state of its own.
--   * Client/Series, Client/Messages, Client/Entries, Client/Notifications and Client/Ui: the stores
--     statsStore.ts, messageStore.ts, logStore.ts, notificationStore.ts and uiStore.ts beside them.
--   * Client/ControlSocket: src/client/src/hooks/useControlSocket.ts. Payloads has the events and their
--     texts, the parent a handler for each event over the stores of the browser, Rooms the rooms that
--     the browser joins as tabs come and go, Decode what a payload of the server is read as.
--   * Client/Configs and Client/Palette: src/client/src/hooks/useSavedConfigs.ts, and
--     hooks/useKeyboardShortcuts.ts with components/layout/CommandPalette.tsx.
--   * Client/Form, Client/Import, Client/Composer, Client/FeedPanel, Client/PerfPanel,
--     Client/NetworkPanel, Client/StatsPanel, Client/LogPanel and Client/WorkspacePanel: of
--     src/client/src/components/ the files connection/ConnectionForm.tsx, shared/ImportModal.tsx,
--     messages/MessageComposer.tsx, messages/MessageFeed.tsx, performance/PerformancePanel.tsx,
--     network/NetworkConditionsPanel.tsx, stats/StatsPanel.tsx, logs/LogPanel.tsx and
--     shared/WorkspacePanel.tsx. Form/Connect and Composer/Flow have what these do before and after a
--     request.
--   * Share/Routes, Network/Routes, Log/Routes, Stats/Routes and Performance/Routes: the controllers
--     beside these services. ExceptionFilter: src/core/all-exceptions.filter.ts.
--   * App: the state of the whole process. The services share the sessions, the log, the network
--     conditions and the control channel; a handler is a chain `app |> f |> g` of the calls that it
--     makes, in their order.
-- The other child modules of each hold proofs, named for what they are about. Base has the shared helpers,
-- Json the values of JSON, Tests the theorems at concrete inputs.
--
-- Conventions. A JavaScript string is the list of its UTF-16 units, a timestamp its milliseconds, a
-- `Map` an association list in insertion order. A thrown exception is a result beside the state that
-- it leaves. The client libraries, `URL`, `JSON.stringify`, `uuid` and `Math.random` are arguments;
-- what a library was asked to do is a list of calls in the state. An `await` divides a method into
-- the steps before and after it, so that other steps can come between. A handler reads the clock
-- once. Numbers are natural numbers; a rate, a random number and a wait are fractions,
-- and the rank of a percentile is computed with the rounding of double precision. A timer whose delay
-- is not from 1 to 2147483647 milliseconds runs after one.
--
-- Loops. The loops over lists and the latency test, which has at most 1000 rounds, are structural. The
-- throughput test runs over a list of turns; a turn ends at the next timer, so with the clock moving on
-- by a millisecond or more in each, one turn more than the duration in milliseconds is enough.
--
-- Not modelled: the controllers of the four proxies, whose routes call one method each, request
-- validation and bootstrap of the framework, process logging, the HTTP client, and what the React
-- components render. Of the components the sidebar, the dialogs and the pages are left out, and of the
-- panel of statistics the clock that counts between two answers.
pub mod Base
pub mod Json
pub mod Session
pub mod Log
pub mod Network
pub mod Stats
pub mod Share
pub mod Gateway
pub mod ClientOptions
pub mod App
pub mod Closing
pub mod WebSocket
pub mod Mqtt
pub mod SocketIo
pub mod Amqp
pub mod Performance
pub mod ExceptionFilter
pub mod Client
pub mod Tests

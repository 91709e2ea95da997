-- ===== src/Lib.antt =====
-- evget records what the input devices of a machine do. A backend (libinput or X11) reads events of
-- the system and transforms each into entries (a key, a mouse click, a mouse move or a mouse scroll,
-- each a list of texts with the modifiers that were active). A store takes the entries: a filter by
-- device type, a JSON writer, an SQL database, or the manager that buffers calls and hands batches to
-- the other stores on a thread pool.
--
-- The files follow the source tree:
--   Error             evget/include/evget/error.h
--   Event             evget/include/evget/event and evget/src/event: enumerations and their text
--                     (Enums, Names, Format), field names (Fields), entries (Entry, Data), and the
--                     four builders (Key, MouseClick, MouseMove, MouseScroll), whose setters have the
--                     names of the C++ methods with the prefix `with_`
--   IntervalTracker   evget/src/interval_tracker.cpp
--   DeviceId          evget/include/evget/device_id.h
--   LibInput          evgetlibinput/src/event_transformer.cpp and its header. `State` holds the
--                     members of `EventTransformer`, each method is a function from a state to a
--                     result and a state, and `transform_event` is `TransformEvent`. A case of its
--                     switch is a function of Handlers or Transformer
--   X11               evgetx11: Api is the interface of x11.h, State holds the members of
--                     `EventSwitch`, `EventSwitchPointerKey` and `EventTransformer`, and
--                     EventSwitch, PointerKey, Motion, Touch, Refresh and Transformer the methods of
--                     event_switch, event_switch_pointer_key, event_switch_touch and
--                     event_transformer; the other modules hold proofs
--   EventLoop         evget/include/evget/event_loop.h and event_handler.h
--   Cli               evget/src/cli.cpp: the enumerated options (Mappings), paths and text (Text),
--                     the end of `Parse` (Cli), and `ToStores` (Stores)
--   Async             evget/include/evget/async/container/locking_vector.h
--   Database          evget/include/evget/database: the interface of connections and queries
--                     (Connection), and evget/src/database/migrate.cpp (Migrate)
--   Storage           evget/src/storage: Filter (filter_store.cpp), Json (json_storage.cpp), Sql
--                     and Init (database_storage.cpp) and Manager (database_manager.cpp)
--   Pipeline          the transformer of libinput in front of the filter
-- Prelude has what they share. Prelude/Text models `std::to_string` and `std::stoi`, and Prelude/Int
-- the integers. Modules named Examples hold concrete runs.
--
-- How the code is translated. A method that changes its object takes the state and returns the
-- new one. `std::expected` is `Result`; a call that may throw returns `Throws`; a chain of
-- `and_then` on the database is the `Action` monad of Database/Connection. Maps that are only
-- read and written at single keys are functions. The sections of the manager that threads
-- interleave are the actions of `Action` in Storage/Manager: a call of `StoreEvent` is a `push`
-- and a `flush`, an answer of the timer is a `timer_action`, and the pool starts a waiting task
-- by a `start_action`, in any order, until it is stopped. A started coroutine goes on by a
-- `continue_action` for each call of a store and one for its handler, between those of other
-- threads and also after a stop; a call of a store is one action on the world of the stores. A
-- flush takes the batch and the snapshot of the stores in one action: adding a store between the
-- two has the effect of adding it before both, and a push between them that of a push after both.
-- A run may tick at any point; that the timer no longer ticks after a stop or a failed wait only
-- removes runs. Words are natural numbers with their wrap-around written out. All recursion is
-- structural, but for the digits of `std::to_string`, whose fuel is one more than the number, and
-- the loop over the events, whose fuel is a number of rounds: EventLoop/Answers says which is
-- enough. The loop over the recorded migrations goes by a bound of the rows that are left, so it
-- has no case in which it runs out. While the event loop waits, other coroutines run; whether one
-- of them stopped it is a part of the answer of the source.
--
-- The X11 transformer asks the server, whose answers may change from call to call: a call is a
-- function of the state of the server, which the model passes on. A method that calls `at` of a map
-- returns `Throws`. The variadic tuple of switches is a list of `Switch`.
--
-- Parameters. libinput, xkbcommon, libevdev, Xlib, the macro XIMaskIsSet, the order in which a
-- `std::unordered_map` is walked, the generator of UUIDs, `double` with its subtraction and text,
-- the text of a time, the printing of JSON, SHA-512, the lower case of a character, `std::stoul`,
-- the embedded SQL of the tables, and the database connection are parameters, most of them in
-- records of functions. Storage/Sql/Rows states what the database store relies on: rows that a
-- transaction writes become durable with its commit and not before, and a statement inserts what
-- is bound to it. Storage/Examples fills it with a database in memory. Database/Connection
-- states that a result set is finite. The printing of JSON may throw, as that library does on a text
-- that is not UTF-8. The options are matched with the tables of Cli/Mappings by CLI11, which ignores
-- case; only the names of device types are also looked up by the code itself.
--
-- Not modelled: the declaration of the options to the library CLI11 and main.cpp, the SQLite wrapper,
-- the Boost.Asio scheduler beyond what the manager sees of it, the adapters of Xlib and libinput with
-- the set-up of devices and screens, and logging.
pub mod Prelude
pub mod Error
pub mod Event
pub mod IntervalTracker
pub mod DeviceId
pub mod LibInput
pub mod X11
pub mod Async
pub mod Database
pub mod Storage
pub mod EventLoop
pub mod Cli
pub mod Pipeline
pub mod Examples

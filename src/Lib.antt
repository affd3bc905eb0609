-- ===== src/Lib.antt =====
-- A model of a workflow engine that runs directed acyclic graphs of nodes on a pool of threads,
-- with theorems on its behaviour. The parts, with the files of the repository and of this library:
--
-- * WorkflowEngine (include/WorkflowEngine.h, src/WorkflowEngine.cpp). Engine has its data.
--   Engine/Read and Engine/Load are loadConfig, validateDAG and onConfigChanged; Engine/Run is
--   run, scheduleNode, executeNode, cancelNodeAndDownstream and waitForCompletion, and
--   Engine/Run/Attempts the registry and the wrapper in executeNode. Json is the parser in the
--   same source, and Json/Print a printer for it.
-- * Kahn's algorithm is written twice, in validateDAG and in GraphBuilder::check_cycles. Dag has
--   the loop that both share, over the list of the edges (dependency, dependant).
-- * GraphBuilder (core/GraphBuilder.cpp): Builder. It reads descriptors, checks them and the
--   registry, and builds a flow, whose arcs Builder/Arcs compares with the descriptors.
-- * NodeState.h, EngineMetrics.h and NodeExecutionWrapper.h (include/): Node, Node/Wrapper.
-- * PluginRegistry (core/PluginRegistry.cpp) and PluginNodeAdapter (include/PluginNodeAdapter.h):
--   Registry. The engine and the builder create their nodes through it.
-- * PluginManager (src/PluginManager.cpp): Plugins. Plugins/Life has the threads that hold its
--   nodes, and its end.
-- * LockFreeRingBuffer (include/LockFreeRingBuffer.h): Ring, with one step for each atomic
--   operation of push and pop. AsyncLogger (include/AsyncLogger.h): Logger, over the bounded queue
--   of Ring/Queue, whose steps are whole calls of push and pop, and Logger/Life its flush thread,
--   flush() and its destructor.
-- * The text analyzer plugin (plugins/llm_text_analyzer_plugin.cpp): Segments is splitText;
--   Analyzer/Text and Analyzer/Reply are the helpers on texts and JSON, Analyzer/Http the HTTP
--   client, Analyzer/Connection its connections over plain sockets and SSL, Analyzer/Settings the
--   parameters, which are read through Context, Analyzer/Session callLlm, Analyzer/Files
--   processFile, Analyzer/Workers the threads, and Analyzer/Node execute. Analyzer/Traced writes
--   down which files are written and renamed.
-- * The audio editor plugin (plugins/llm_audio_editor_plugin.cpp): Audio/Json and Audio/Commands
--   read the edit commands, Audio/Process is runCommand and the probing of a file, Audio/Filters
--   and Audio/Edit are executeEditCommand, Audio/Pool the threads, and Audio/Node execute, which
--   reads its parameters through Context. Audio/Trace and Audio/DryNode write the calls of a
--   machine and its folders down.
-- * The program (src/main.cpp): Main. It registers its commands with Control, gives Watcher its
--   callback, and reloads Plugins and Engine in both.
-- * ConfigWatcher (src/ConfigWatcher.cpp): Watcher.
-- * ExecutionContext (include/ExecutionContext.h, src/ExecutionContext.cpp): Context.
-- * ControlPlane (core/ControlPlane.cpp): Control has its commands and sessions, Control/Life its
--   construction, its event loop and its end; its client workflow-cli (tools/workflow-cli.cpp):
--   Cli, whose session with a control plane is in Cli/Served. What the system answers to its calls
--   is a list.
-- Shared has the common names, and Examples the small inputs on which the theorems are applied.
--
-- How the code is represented. A std::string is the list of its bytes, and a map a function of its
-- key, with the list of the keys where the code iterates or counts; every order in which an
-- unordered map may iterate is allowed. Counters of the metrics wrap at 2^64; `int` counters of
-- dependencies and attempts are unbounded integers, as they stay below the number of edges and
-- retries, and the 64-bit counters of the plugins' files, commands, characters and bytes are
-- unbounded numbers. Exceptions are values.
--
-- Concurrency. A thread of the engine is the list of the atomic operations on shared state that it
-- still has to make, and a run is any list of choices of the thread that goes on; how a node ends
-- and the context that it leaves are chosen with it. The pool is taken to give every posted task a
-- thread of its own, which allows all interleavings of a smaller pool. The ring buffer is taken to
-- be sequentially consistent; its theorems are for fewer than 2^61 operations, as the signed
-- difference of two sequence numbers overflows near 2^63, and for one consumer. The threads of the
-- text analyzer take an index in one step and process a file in one, since they share only atomic
-- counters and a locked list; two input files with one output file are processed one after the
-- other. The threads of the audio editor execute a command in one step in the same way, although
-- two merges at once write one list file. The logger pops an event and writes its line in one
-- step, so that a flush() does not overlap with the flush thread within it. Main handles one
-- session or change at a time. Other components hold a lock in each operation, which is one step
-- here.
--
-- Fuel. Kahn's loop has as many rounds as there are ids, since each round takes an id out for
-- good. The parser has two calls a byte and one more, as at most every second call keeps its text.
-- The splitting of a text has one round a byte and one more, as every round takes at least a byte.
-- The HTTP client, the replacement of texts, the edit commands and the end of the logger have fuel
-- as an argument; theorems say how much is enough for the end of the logger, for the edit
-- commands, for the waiting for a child, for printed values, and for the decoding of chunks where
-- sizes are right. Without fuel they give none.
--
-- Parameters. std::stod, the conversion of a double to int, nlohmann::json, what the dynamic
-- linker and plugins answer, the handlers of commands and the nodes themselves are arguments. A
-- Taskflow graph is the list of the calls that the builder makes on it. The text analyzer is given
-- a System: the exchange of a request, which Analyzer/Connection makes of a Network of calls, the
-- files, the clock, and the standard library's conversions and paths. The audio editor is given a
-- Machine, its processes, clock and files, the Folders with its instructions, and the Doubles.
--
-- Not modelled: ThreadPool and ScopedTimer, which wrap boost::asio and the clock; the example
-- plugin, the tests and examples, which only call the parts above; GraphBuilder::run and the
-- closures of its tasks, which hand over to Taskflow; the exception of std::filesystem::exists in
-- the plugins, and what a factory or create_node throws that is not a std::exception; two pops of
-- the logger at once; printed texts and the times of runs; and a change of the configuration while
-- the engine runs or is changed by another thread, which has no defined behaviour.
pub mod Shared
pub mod Dag
pub mod Node
pub mod Json
pub mod Engine
pub mod Registry
pub mod Control
pub mod Builder
pub mod Context
pub mod Plugins
pub mod Cli
pub mod Watcher
pub mod Segments
pub mod Ring
pub mod Logger
pub mod Analyzer
pub mod Audio
pub mod Main
pub mod Examples

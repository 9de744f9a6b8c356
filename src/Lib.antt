-- ===== src/Lib.antt =====
-- LMonitor: agents sample a Linux host and send the metrics as length-prefixed text frames over
-- TCP; a server decodes them in a thread pool, keeps the latest metrics and a history of each host,
-- raises alerts, and shows them over HTTP.
--
-- The parts that are modelled, in the order in which a sample passes through them:
--
-- - Serializer: src/serializer/MetricsSerializer.cpp (Writer: `serialize`) and
--   src/serializer/MetricsDeserializer.cpp (Numbers: the number parsers; Reader: `deserialize`).
--   The exceptions are the constructors of `ParseError`. `serialize` and the chain of tests on the
--   key are cut into parts of consecutive lines, `write_system`, `write_load` and `write_network`,
--   and `set_field`, `set_load` and `set_network`.
-- - Agent: src/network/TcpClient.cpp and src/agent/MonitorAgent.cpp. Agent.antt has the connection
--   and the part of the loop that connects and sends, with its retry policy. Sampling has the
--   constructor, `buildMetrics` and the whole loop of `run`, with what the collectors and the
--   system calls answer in each round as an argument; Display is the text of `displayMetrics`.
-- - FrameCodec: src/protocol/FrameCodec.cpp, `encode` and `tryDecode`. A size is a natural number;
--   a frame holds at most 1 MiB, so the 32-bit header does not wrap.
-- - Channel and TcpConnection: src/reactor/Channel.cpp and src/network/TcpConnection.cpp. The
--   results of `recv` are a list; when it is used up, the next call would block. A connection goes
--   through any number of readiness events, each with a list of its own. The close callback is the
--   one that src/server/TcpServer.cpp registers, which destroys the connection. A `Run` says
--   whether the code goes on to read storage that is freed. The decode loop runs on fuel, one round
--   for each byte of the buffer and one more: each frame that it takes off has four bytes at least,
--   which TcpConnection.Drain proves to be enough.
-- - ThreadPool: src/thread/ThreadPool.cpp. A step is one critical section, a notification, or the
--   end of a task; threads are a list of such steps in any order. A worker that finds nothing to do
--   falls asleep, and steps again when a notification, or a spurious wake-up, has woken it.
-- - Store: src/store/, the history store, the metrics store and the state tracker. Every method
--   holds a mutex for its whole body, so a call is one step.
-- - Alert: src/alert/, the evaluator and the manager. Manager.Automaton reduces a call of `update`
--   to a step of a small machine for each entry of the table.
-- - Config: src/config/Config.cpp, on the text of the file.
-- - Server: src/server/TcpServer.cpp. Server.antt has the task that the message callback submits to
--   the thread pool, cut into steps at its calls of the shared objects, and the status timer's
--   callback, cut in the same way; Timer runs it alone, Timer.Race beside a worker. Callback hands
--   messages to the queue of the pool. Worker runs a task alone, Interleaving runs many at once,
--   and Pipeline goes from the agent's frames through the connection and one worker to the stores;
--   Agents puts the rounds of an agent before it. Connections has the callback for new connections,
--   their close callback and the table that owns them, and Startup what comes before the loop and
--   after it.
-- - Acceptor: src/reactor/Acceptor.cpp, `handleAccept` for any callback; Listening has the
--   listening socket. Timer: src/timer/TimerFd.cpp. The answers of the system calls are arguments.
-- - Programs: src/main.cpp and src/server_main.cpp, from the text of the configuration to the exit
--   code.
-- - EventLoop: src/reactor/EventLoop.cpp, `loop`, `quit`, `queueInLoop`, `wakeup`, `handleWakeup`
--   and `doPendingFunctors`, as steps of one loop thread and any number of others. The answers of
--   `epoll_wait`, and of `read` and `write` on the eventfd, are in the steps, and a callback may
--   throw before the wakeup channel's turn or behind it. Channels has the registration of channels,
--   and Descriptors the constructor and the destructor.
-- - Http: src/http/. Response builds the responses; Api has the four JSON texts, with the value
--   that each is meant to be in Api.Values; Json has `jsonEscape`, and the printer and the parser
--   of JSON that the texts are compared with. The parser runs on fuel, one for each call; the
--   weight of a value is enough. A number is one of RFC 8259, with no leading zero. Routes is
--   `handleClient`, on what has arrived when it calls `recv`, of which it takes what its buffer
--   holds; Sending is `sendAll`, and Thread has `start`, `stop` and `run` with its accept loop.
-- - Collector: src/collector/. Cpu works on the text of /proc/stat, with the counters in 64 bits;
--   Network on /proc/net/dev, and Route on /proc/net/route; Process on the entries of /proc, with
--   std::sort as an argument; and Host has the memory, load, disk and system collectors. The loop
--   over /proc/meminfo runs on the length of the text as fuel, of which each round takes one byte
--   at least; Host.Memory proves it enough for what the kernel writes.
-- - Logger: src/log/Logger.cpp. File has the log file, its rotation and the constructor; the two
--   files are byte strings, and what each call on the file system answers is an argument, with how
--   many bytes of a record reach a disk that is full. What a failed write leaves in the buffer of
--   the stream is taken to be lost. Path is the search for the path of the file, over the
--   operations of std::filesystem::path as an argument.
--
-- Base holds byte strings (std::string as lists of numbers below 256), std::getline, the
-- conversions std::stoi, std::stoll and std::stoull with their ranges, and std::unordered_map as an
-- association list, whose order no theorem depends on. Float holds the operations of double as a
-- parameter; Sample instantiates it for the tests. The clocks are arguments, in nanosecond ticks.
--
-- Not modelled: the print of the time in a log line, and the terminal output of the logger; the
-- getters of the classes; and the web page.
mod Base
mod Sample
pub mod Logger
pub mod FrameCodec
pub mod Channel
pub mod TcpConnection
pub mod Model
pub mod Store
pub mod Config
pub mod Float
pub mod Alert
pub mod Serializer
pub mod Collector
pub mod Acceptor
pub mod Agent
pub mod Server
pub mod EventLoop
pub mod Http
pub mod ThreadPool
pub mod Timer
pub mod Programs

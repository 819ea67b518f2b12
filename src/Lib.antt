-- ===== src/Lib.antt =====
-- SysScope reads the kernel's text files on Linux, turns their counters into snapshots,
-- diagnoses bottlenecks from a snapshot, and stores and serves the results. This library models
-- the C++ code under `src` and `include/sysscope` and states what is proved of it.
--
-- How the parts interact. A collector reads files through an IFileSystemReader and keeps the
-- counters of the previous call; its result is a part of a MetricSnapshot. The scheduler calls
-- the collectors at their intervals and the bounded queue carries samples between threads. The
-- correlation engine maps a snapshot to diagnoses. The persistence engine keeps snapshots and
-- diagnoses, the profiler samples the collectors round a workload, and the IPC client asks for
-- the results. The terminal dashboard and the Qt client draw snapshots and diagnoses; the
-- program starts the dashboard, or profiles a command.
--
-- Files and sources.
--   Base            lists, texts, machine integers, dictionaries and doubles that all parts
--                   share
--   Stream          std::istringstream, std::stoull and std::stoi as the collectors use them
--   Core            include/sysscope/core: Types, Result, Snapshot and Timestamp as in
--                   types.hpp, result.hpp, snapshot.hpp with metric.hpp, and timestamp.hpp with
--                   src/core/timestamp.cpp (Iso)
--   Platform/Files  file_system_reader.hpp and mock_file_system_reader.cpp; Mock on sequences of
--                   writes. Platform/RealFiles is real_file_system_reader.cpp
--   Platform/Devices accelerator_backend.hpp, netlink_reader.hpp and
--                   src/platform/capabilities.cpp
--   Platform/Netlink src/platform/real_netlink_reader.cpp; Links. Platform/Host is platform.hpp
--   Util            src/util/format.cpp; Scale on the choice of a unit, Clock on durations
--   Collectors      cpu.cpp, memory.cpp, disk.cpp, network.cpp, psi.cpp, thermal.cpp and
--                   process.cpp of src/collectors, a module for each with the function `collect`
--                   and its parts; the theorems are in the child modules (Cpu/Parse, Cpu/Usage,
--                   Cpu/Collect and, for two calls, Cpu/Twice; Memory/Laws; Disk/Laws, Disk/Stat
--                   on the text of a stat file and, for two calls, Disk/Rates; Network/Parse,
--                   Network/Baseline and, for two calls, Network/Rates; Psi/Line,
--                   Thermal/Degrees, Process/Stat and Process/Name on the text of a stat file,
--                   which Process/Fields reads, Process/Counts, Process/Baseline,
--                   Process/Tree/Family)
--   Telemetry       queue.hpp in Queue (Laws, Order) and src/telemetry/scheduler.cpp in
--                   Scheduler (Rounds; Threads on the interleavings)
--   Analytics       src/analytics/correlation.cpp in Correlation (Justified, Rules, and Sensors
--                   on the hottest reading) and profiler.cpp in Profiler (Report)
--   Storage         include/sysscope/storage/persistence.hpp and
--                   src/storage/sqlite_persistence.cpp; Engine
--   Ipc             include/sysscope/ipc/ipc.hpp and src/ipc/real_ipc.cpp; Session
--   Ui/Terminal     src/ui/terminal.cpp; Modes
--   Ui/Screens      the drawing functions of src/ui/dashboard.cpp: the shared parts, and
--                   Overview, Resources (cores, memory and disks), Processes and Events; Bar on
--                   the progress bar
--   Ui/Dashboard    the rest of src/ui/dashboard.cpp: state, snapshot and history, and Loop;
--                   History, Quit
--   Ui/Qt           src/ui/qt: Events, Telemetry (Ring), Chart (Series), Playback (Rounds),
--                   History (LastHour, Session), Incidents (Listed), ProcessTree (Flat),
--                   ProcessPage, Pages and Window (Polled), each named in its file's first line
--   Program         src/main.cpp; Arguments
--   Samples, Tests  concrete files and states at which the theorems are applied
--
-- Conventions. A uint64_t is a number with its arithmetic modulo 2^64 written out, a uint32_t
-- cast is `to_u32`. A std::string is the list of its codes. An unordered_map is an association
-- list; where its order can be seen it is a parameter. A double is a type `W` with the
-- operations of `Double`; theorems that compare doubles take `IsOrdered`, the laws of the IEEE
-- order with NaN and of literals of at most fifteen digits. What a call sees of the file system
-- is a `Reader`, the clock's readings are arguments, and an exception is `throws`. What is
-- printed is a text, in which a character of a literal is one code, also where UTF-8 has several
-- bytes. A Qt slot is a function on the state that returns the signals it emits.
--
-- Bounds and fuel. Printing a number has fuel above the number and each round divides by ten.
-- The loop over the tokens of a pressure line has one more round than the line has characters,
-- and each round takes a character. The loops that divide a number of bytes by 1024 have one
-- round more than they have steps between units. The loop of the dashboard recurs on the list of
-- rounds, that is of keys and of what the collectors see; all other loops are structural.
--
-- Not modelled: the layout of the Qt widgets and the start of the Qt application, which only
-- call Qt; the tests and the load generators; the Windows branches of the terminal. Parameters
-- stand for std::sort, localtime_r, QString::arg, QVariant::toString and hasIndex. Of the
-- scheduler, an add_task while a callback runs only leads to a state of its own, `dangling`,
-- since the source then reads a vector that may be reallocated; of the profiler the process that
-- it starts is left out, and of the directory iterator steps that throw.
pub mod Base
pub mod Stream
pub mod Core
pub mod Platform
pub mod Util
pub mod Samples
pub mod Collectors
pub mod Telemetry
pub mod Analytics
pub mod Storage
pub mod Ipc
pub mod Ui
pub mod Program

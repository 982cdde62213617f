-- ===== src/Lib.antt =====
-- linyaps-box, an OCI runtime: a model of the program and what is proved of it.
--
-- The program reads a container's configuration, starts a process in new namespaces, sets its mounts
-- up, runs the hooks that the configuration names on both sides of a handshake over a socket pair,
-- changes the root, and becomes the command of the container; a directory of JSON files holds the
-- status of each container. Each part has a module, named for it:
--
--   Semver            src/linyaps_box/utils/semver.cpp: versions as bytes; `parse` is the constructor
--   Config            src/linyaps_box/config.h; Config/MountOptions and Config/Parser are
--                     src/linyaps_box/config.cpp
--   Status            src/linyaps_box/container_status.h and src/linyaps_box/status_directory.h
--   StatusDirectory   src/linyaps_box/impl/status_directory.cpp; Store is the abstract view of it, a
--                     list of statuses by id, FileSystem what is asked of a system that keeps files,
--                     Updates, Refinement and Listing relate the two
--   Utils             src/linyaps_box/utils: Paths (members of std::filesystem::path), Files,
--                     Descriptor (file_describer.cpp), SocketPair, Inspect, Log; Retries,
--                     Quoting and Paths/Laws have laws
--   Container         src/linyaps_box/container.cpp, with a module for each group of its functions:
--                     Sync, Waiting, Hooks (handshake and hooks), Mounts, Mounter (class mounter),
--                     Descriptors (close_other_fds), CloneFlag, Process (execute_process and
--                     do_pivot_root), UserNamespace (the mapping helpers), Lifecycle (clone_fn, the
--                     constructor and run). Of these, Ordinary has what neither talks nor runs a
--                     program, Order is about the sequence of hooks, root and command, Handshake about
--                     the process of a container and the runtime as two processes that talk,
--                     MountTargets, OnDescriptors and ReadonlyTmpfs about what is mounted on,
--                     ExitCode and Reported about what run gives, Resources about what is held,
--                     Retries about the loops
--   Runtime           src/linyaps_box/container_ref.cpp and src/linyaps_box/runtime.cpp
--   Printers          src/linyaps_box/impl/json_printer.cpp and table_printer.cpp beside it
--   Command           src/linyaps_box/command and src/linyaps_box/app.cpp; Command/CommandLine is
--                     src/linyaps_box/command/options.cpp
--
-- Linux has the constants of the system's headers, Json the interface of the JSON library, Prelude
-- the shared helpers and Result the exceptions. Code that makes system calls is a `Program` (Program):
-- a tree of calls (Kernel), each with a branch for every answer. It is run against a kernel, which is
-- any function that answers a call from the history of calls; no answer is assumed but where a
-- theorem says so. A function of the source is the definition of the same name; where C++ overloads a
-- name, a comment says what a definition stands for. Program/Traces, Program/Only,
-- Program/Returns, Program/Completes and Program/Resources have the rules for what a run shows, calls,
-- returns, has done when it returns, and holds, Program/Avoids those for what a program does not call.
-- The modules named Laws have what is shown of the module above them, those named Tests have examples.
--
-- Two processes at the ends of the socket pair are Program/Sessions/Systems: each makes its calls in its
-- own time, what one sends is on its way until the other reads it, in order, and a read finds the end of
-- the stream when nothing is on its way, the other process has ended, and the reader has no copy of
-- the other's end, which the process of a container has until it closes it. A script is what the
-- two say to one another, message by message, with the side that sends each; Program/Sessions has what
-- it is for a program to conform to a script, and Container/Handshake/Scripts the script that the hooks of a
-- configuration give. `clone_body`, without the handler of `clone_fn` that prints and ends, and
-- `run_started`, which is `run` behind `start_container_process`, are the two programs.
--
-- Numbers are natural numbers. Flag words are 64 bits wide where a complement is taken, a descriptor
-- is `none` for -1, and the conversion of a negative `int` in a version to `unsigned int` is written
-- out. Loops over a call that can be interrupted take `retries`, and the loop that detaches mounts
-- takes `layers`: how often they go round at most. A run that uses the bound up ends by throwing
-- `undefined`, so that a run that returns has not used it up.
--
-- Not modelled: where the functions write to the log, apart from what a message does (Utils/Log);
-- the CLI11 library that parses the command line and the JSON library, which are parameters;
-- assertions, which a release build leaves out; where destructors close descriptors, apart from
-- those of the socket pair in `start_container_process` and `run`. The call `clone` is seen from
-- the parent, and `clone_fn` is a program of its own; a hook is one call that forks and executes.
-- The sizes of pages and of integers other than those above are not looked at. A sign in front of
-- the number in a file under /proc/self/fdinfo, which the system does not write, is not read.
pub mod Prelude
pub mod Result
pub mod Linux
pub mod Semver
pub mod Json
pub mod Config
pub mod Kernel
pub mod Program
pub mod Utils
pub mod Status
pub mod StatusDirectory
pub mod Container
pub mod Runtime
pub mod Printers
pub mod Command

-- ===== src/Lib.antt =====
-- Models of automaton-state-machine: a server that decides whether an alternating automaton accepts
-- words, and the containers and text routines that it is built on.
--
-- How the parts work together: a tester sends words to the server (src/validator.c), which starts a
-- run (src/run.c) for each; the run gets the automaton through a pipe, searches it (src/automaton.h)
-- and sends the result to the server, which forwards it to the tester. The server keeps its
-- sessions in hash maps (src/hashmap.h), made of array lists and doubly linked lists
-- (src/array_lists.h, src/dynamic_lists.c); the description of the automaton is read line by line
-- (src/getline.h). Words, results and answers go through message queues (src/msg_queue.h), the
-- description through a pipe (src/msg_pipe.h), whose name is an argument of the run. Handlers that are
-- registered run when a process ends (src/onexit.h); among them is that of the collector
-- (src/gcinit.h), which frees what the allocation functions (src/memalloc.h) have registered.
--
-- The modules:
-- - Base: numbers, tests, lists; the C type int as an integer; Outcome, the result of C code, which
--   can be undefined, or the end of the process.
-- - Automaton: src/automaton.h. Graph is the transition graph with its checked array accesses, Spec
--   the automaton and what it accepts, View the automaton that a graph stands for, Sync `acceptSync`,
--   Async `acceptAsync` with forks, pipes and children, Loader `loadTransitionGraph` with its local
--   variables, Loader/Format the description that it reads, Loader/Input how it is read from the
--   standard input or a file, and Printer `printTransitionGraph`.
-- - Text: src/getline.h. Gets is `strGets`, Getline `strGetline` and `getline`. Scan is what `sscanf`
--   and `sprintf` do with numbers, Decimal that they agree.
-- - Pipe: src/msg_pipe.h. Ops are the operations, Names the strings that name pipes.
-- - MsgQueue: src/msg_queue.h. Posix is the interface of the operating system's queues, Ops are the
--   operations.
-- - ExitHandlers: src/onexit.h.
-- - Run: `main` of src/run.c, made of the pipe, the loader and the search.
-- - Tester: src/tester.c. Loop is the loop of `main`, over the array list, Main what is before and
--   behind it, and Replies how the answers that are missing end it.
-- - Autovalidator: src/autovalidator.c, which starts the server and testers on files. Ops are its
--   functions and the parts of `main`.
-- - Logging: src/syslog.h. Ops are its functions, as the text that they print.
-- - DynamicList: src/dynamic_lists.h and src/dynamic_lists.c, on a heap of nodes. Ops, Iterate,
--   Splice and Copy are the operations, Chain what a root and a heap stand for.
-- - ArrayList: src/array_lists.h and src/array_lists.c. Ops, Iterators and Print are the operations.
-- - HashMap: src/hashmap.h. Ops, Iterator and Destroy are the operations, Assoc the laws of
--   association lists.
-- - Memory: src/gc.h, src/gcinit.h and src/memalloc.h. State is the state of the collector, Tree
--   `__gc_mem_tree__`, Alloc the allocation functions, Setup `__gc_init__`, Descriptors the
--   destructors that the program registers, and Program a sequence of allocations.
-- - Server: src/validator.c. State is the state of `main`, Handlers and Cycle are its loop, Fork
--   is the part of src/fork.h that it calls, Formats what `sscanf` makes of the messages, Answers
--   the way of a result from a run to a tester, Stopping how the loop ends, Main what is before
--   and behind it, and `onExit`. The function names are those of the source, in the spelling of
--   this language; the parts of `main` are named for what they do.
--
-- Parameters: what the operating system does at a fork, at the calls on pipes and files, and to message
-- queues; what the server and the tester read in a round from queues, lines, `waitpid` and `exec`;
-- what `sscanf` makes of a message of the server, where a theorem does not name the formats;
-- the addresses that `malloc`, `calloc` and `realloc` return; the answers of `wait`, `open`, `dup2` and
-- `execlp`; the text that `vfprintf` and `strerror` make.
--
-- Fuel: the searches take one unit for each letter, and one more; the walks of a linked list one for
-- each node, and one more; the walk of a hash map one for each bucket, and the loops over its
-- elements one for each element, and one more; the loader, and the loop over the calls of `fgets`,
-- one for each character of the input, and one more; the decimal digits of n get n + 1. Overflow of
-- `int` is not modelled, nor are failures of `malloc`.
--
-- Not modelled: that the programs open and close their queues, but for the test and the copy of
-- the name of a tester's queue in the server, and that they register queues and pipes with the
-- collector; the calls that write to the log, and the log where NO_LOG is set; the messages of
-- src/autovalidator.c about errors, and its `main` with the first loop, which is undefined; the
-- printers of src/generics.h, which only call `printf`. They are calls of the operating system,
-- output, or have no logic of their own. The memory of the maps themselves is not in the model of
-- the collector, which is off while they allocate. The values of a linked list are numbers that it
-- does not look into; the functions that map them or print them have no other effect. A number
-- that does not fit its C type keeps its value where it is read.
pub mod Base
pub mod Automaton
pub mod Text
pub mod Autovalidator
pub mod DynamicList
pub mod ArrayList
pub mod HashMap
pub mod Pipe
pub mod ExitHandlers
pub mod Logging
pub mod Memory
pub mod MsgQueue
pub mod Run
pub mod Tester
pub mod Server

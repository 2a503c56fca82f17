-- ===== src/Lib.antt =====
-- shmsock: the socket API over shared memory between two processes.
--
-- The program. Two processes, a server (built with MODE_SERVER) and a client, map one region. At its
-- start lies a `struct interface` with a list of connections; a connection has two lists of packets,
-- one for each direction, and event masks for both sides. list.c wraps the submodule linked-list so
-- that the nodes of a list are allocated in the malloc context of the region. util.c makes, offers,
-- accepts and closes connections and moves packets. socket.c is the API over a table of descriptors
-- of each process, and event.c is epoll and poll over the event masks.
--
-- The model.
--   Llist, Llist/*            list.c and list.h.
--   Machine                   the structs of util.h, socket.h and event.h. `Memory` is what both
--                             processes reach through pointers, one map for each type; `Process` is
--                             the global variables of one process. util.h lays out the fields that
--                             have a side in the other order under MODE_SERVER; here they are named
--                             for the server and the client, and Machine/Sides names them own and
--                             remote for the side that calls.
--   Machine/Cmd               `Cmd A` is a state transformer that ends with a result, with a fault
--                             (NULL, a dangling pointer, the end of an array, a free in another
--                             context) or asleep.
--   Numbered                  what the tables of descriptors and of epoll descriptors have in common.
--   Interface, Interface/*    util.c: the table of interfaces and registerInterface2.
--   Regions, Regions/*        util.c: setupIface of an enclave and of a preloaded library,
--                             registerInterface, createSharedRegion, the address files and strings.
--   Connection, Connection/*  util.c: connections. Connection/Stream says what is well formed and what
--                             bytes are on the way, Connection/World is two processes over one
--                             memory; the other children are named for what they prove.
--   Fds, Fds/*                socket.c: the table of descriptors and the checks of the calls.
--   Pollfds, Pollfds/*        event.c: the table of epoll descriptors and epoll_create1.
--   Listeners, Listeners/*    event.c: epoll_ctl and setLevelTriggeredEvents.
--   Waiting, Waiting/*        event.c: epoll_wait and epoll_pwait. Waiting/Reports says what is ready,
--                             Waiting/Scan that the loop over the listeners finds it, Waiting/Rounds
--                             and Waiting/Timeout when the call returns; Waiting/Edge, Offers and
--                             Refused are about a single listener.
--   Poll, Poll/*              event.c: poll and ppoll.
--   Socket, Socket/*          socket.c: the calls. An index into the table stands for a `struct fd*`.
--                             Socket/Calls is any sequence of the calls of socket.c and event.c, and
--                             rests on the modules named Keeps, which go through each of them.
--   Examples, Examples/*      a concrete setting, with each theorem applied in it.
--
-- Sleeps. A call that waits takes a schedule: a list of functions on states, what all others do
-- during each of its sleeps. A call that still waits at the end of its schedule is asleep. The other
-- calls run without interruption: socket.c and event.c define NOLOCK, so FUNC_LOCK does nothing, and two
-- calls at the same time are not modelled.
--
-- Bounds and fuel. The loops over tables are recursion over their lists. FOREACH_LIST runs to the
-- first NULL of a list and takes fuel of one more than the length of the list: a round for each
-- element and one for the NULL. Numbers are unbounded, but a `size_t` that is passed as an `int` is
-- reduced to 32 bits and read as signed (`int_of_size`), the products of the timeout of epoll_pwait
-- and the timeout of ppoll wrap around at 32 bits, and a `short` mask of poll is extended with its
-- sign. Printing a number takes as many steps as the number says, which is at least its digits.
--
-- Parameters. linked-list and custom-malloc are submodules whose code is not here. `External` has
-- their functions; `ExternalLaws` says that they do on lists what their names say if the current
-- malloc context is that of the list, and that malloc hands out what is not in use. `Kernel` has the
-- system calls for descriptors below FD_START, `SharedMemory` those for shared memory, where the
-- address that the system chooses depends on the process, with their alignment as `SharedMemoryLaws`. The environment, the regions of an enclave and what
-- setupSharedMemory does are arguments.
--
-- Not modelled: llist_map, llist_print and llist_no_teardown; the locks of api-tools.h, which no build
-- uses; signal masks; negative descriptors; the output for debugging.
pub mod Base
pub mod Llist
pub mod Machine
pub mod Numbered
pub mod Interface
pub mod Regions
pub mod Connection
pub mod Fds
pub mod Pollfds
pub mod Listeners
pub mod Waiting
pub mod Poll
pub mod Socket
pub mod Examples

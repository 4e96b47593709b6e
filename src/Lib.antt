-- ===== src/Lib.antt =====
-- The coordinator of Demeter's data-centric function platform, and the triggers that it shares with
-- the local schedulers; the local scheduler, the executors and the manager.
--
-- Parts and how they interact. Applications own buckets; objects arrive in buckets; triggers of a
-- bucket turn arriving objects into function calls; the coordinator keeps these maps, answers
-- queries for object locations and spreads calls over the worker nodes. It is one process that
-- receives protobuf messages on one socket for each kind, handles one at a time and sends messages to
-- workers and clients. On each worker node a local scheduler takes calls from the coordinator and
-- messages from its executors, runs a call on a free executor once its arguments are on the node,
-- checks new objects against the triggers that it shares with the coordinator, fetches objects from
-- other nodes, and sends calls that it cannot run back to the coordinator. An executor reads the calls
-- of its scheduler and runs functions, which store and fetch objects by messages to the scheduler. The
-- manager tells clients which coordinator an application belongs to.
--
-- Files, with the code that they are about (paths from the repository's root):
--   Prelude.antt, Prelude/: tests on numbers, lists, byte strings, maps and sets as lists, integers.
--   Names.antt, Names/: pheromone/common/include/common.hpp, lines 28 to 131: object names in shared
--     memory, BucketKey, split and gen_random.
--   Trigger.antt, Trigger/: pheromone/common/include/trigger.hpp: each class is a module with its
--     state as a record and its virtual functions under their names; Any has the dispatch and
--     gen_trigger_pointer; Feed runs a class over a sequence of objects.
--   Coordinator.antt: the state of `run` in pheromone/src/coordinator/coordinator.cpp and the
--     messages; its children are the handlers of pheromone/src/coordinator:
--     Buckets (bucket_op_handler.cpp), Objects (query_handler.cpp, update_address, get_address),
--     Triggers (trigger_op_handler.cpp), Apps (app_register_handler.cpp), Status (the status branch of
--     `run`), Demeter (demeter_scheduler.cpp), Calls (func_call_handler.cpp), Notify and
--     Workers (notify_handler.cpp), Run (the loop of `run`), and Invariant, which the handlers keep.
--
--   Scheduler.antt: the state of `run` in pheromone/src/scheduler/scheduler_server.cpp and of CommHelper
--     in pheromone/include/scheduler/comm_helper.hpp; its children are Comm (addresses, request ids, I/O
--     threads), Forward (what goes to coordinators and clients), Data (the data protocol and the
--     responses of the store), Updates (the first branch of try_recv_msg), Arrival
--     (pheromone/src/scheduler/object_handlers.cpp), Packing (forward_call_via_helper), Calls
--     (schedule_func_call, check_trigger), Executors and Sends (the messages of executors), Responses
--     (those of CommHelper), Run (a round of the loop), Reruns (the check for overdue functions) and
--     IoThreads (run_io_thread_loop).
--   Executor.antt, Executor/: pheromone/include/executor/function_lib.hpp, and as Calls
--     pheromone/src/executor/executor_server.cpp; Exchange and Sending are about what passes between
--     an executor and its scheduler.
--   Manager.antt, Manager/: pheromone/src/manager/manager_server.cpp.
--
-- How the code becomes definitions. A handler maps the state and a parsed message to the new state
-- and the messages that it sends, in order. `none` is a fault: an uncaught exception or an undefined
-- dereference. A string is the list of its bytes; an unordered map or set is a list in the order of
-- iteration, so a theorem about every list is one about every order. Clocks are arguments, in
-- nanoseconds. What the scheduler sends is the last field of its CommHelper, in order; a trigger that
-- several of its maps share is an index into a list of triggers. The protobuf encoding, the YAML
-- library, `rand_r`, `double`, the shared memory and the key-value store are parameters; of protobuf
-- the law is that what is written is read back, and of the others nothing is assumed.
--
-- Bounds and fuel. Native numbers; a 32-bit unsigned sum keeps its wrap-around, and an int that is
-- compared with a size or stored in an unsigned field is converted as the code does. The search for
-- a node with an executor has as much fuel as there are nodes, which Coordinator.Calls.Rounds shows to
-- be enough while a node has an executor left; std::to_string has one round of fuel more than its number, which has at most that many
-- digits; the power of ten of generate_timestamp stops after eight rounds, which is enough for thread
-- ids of nine digits; the check for overdue functions has as much fuel as there are items, which
-- Scheduler.Reruns.Ends shows to be enough. Other loops are recursion on a list.
--
-- Not modelled: logging and sockets; the set-up in each main; the clients
-- (pheromone/src/client); what the function of a user does; the copies of
-- libraries (pheromone/common/shm-ipc, the Anna client, the lattices and the ZeroMQ helpers); the
-- Python code.
pub mod Prelude
pub mod Names
pub mod Trigger
pub mod Coordinator
pub mod Scheduler
pub mod Executor
pub mod Manager

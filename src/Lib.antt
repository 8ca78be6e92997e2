-- ===== src/Lib.antt =====
-- Agnocast: zero-copy publish/subscribe between processes for ROS 2. A publisher borrows a message in
-- shared memory, fills it and publishes it; a subscriber receives a pointer to it. The kernel module
-- keeps the topics, who publishes and subscribes, and which subscriber references which message: the
-- user library calls it by ioctl. The message filters join the messages of several subscriptions by their time stamps.
--
-- The parts that are modelled, with the files of this library and of the repository:
--
-- SmartPtr -- src/agnocastlib/include/agnocast/agnocast_smart_pointer.hpp, `ipc_shared_ptr`. The state
--   is `World`: the control blocks of the heap, the objects of the class in the program by position,
--   and the list of what left the class (the release ioctl, `delete`, the borrow counter). `Op` is
--   every operation that changes the state; `step` runs one (`construct`, `copy_with`, `move_with`,
--   `copy_assign`, `move_assign`, their converting forms, `cast_copy`, `cast_move`, `reset`,
--   `invalidate_all_references`). A use of a freed block is the outcome `fault`, `std::terminate` is
--   `terminate`. The reference count wraps at 2^32, so the theorems on counts assume fewer objects
--   than that. Subscriber and publisher share the class; what tells them apart is `entry_id`.
-- MessageFilters/Message -- what the policies read of a message, and the tuple of nine slots.
-- MessageFilters/ExactTime -- src/agnocastlib/include/agnocast/message_filters/sync_policies/exact_time.hpp.
--   `ExactTime` is the state, with the map `tuples_` as a list by stamp; `add`, `check_tuple` and
--   `clear_old_tuples` are the operations; signals and drops are lists in the order of the calls.
-- MessageFilters/ApproximateTime -- src/agnocastlib/include/agnocast/message_filters/sync_policies/approximate_time.hpp.
--   `Approx` is the state; `Defs` has the operations on deques and past messages and `makeCandidate`
--   and `publishCandidate`, `Process` the search `process`, `Arrive` the rate check and `add`. Only
--   the inputs in use (`RealTypeCount`) are in the state: the others never hold a message. The
--   outcome `none` is the front of an empty deque, an abort, or fuel that ran out. `process` has fuel
--   for one more round than `rounds`, a bound that every round lowers; the inner search has fuel for
--   one more round than there are messages in the deques, of which each of its rounds takes one out.
--   `num_non_empty_deques_` is a natural number, since it stays at most nine and is never lowered at
--   zero. The assertions of the inner search, on its count of deques and that it ends at the pivot, are not
--   outcomes of the model. The
--   factor `1 + age_penalty_`, a double, is the parameter `scale` on durations; no theorem
--   assumes anything of it.
-- Timer -- src/agnocastlib/src/agnocast_timer_info.cpp and its header. `Timer/Defs` is one timer:
--   `TimerInfo`, `next_call` and `handle_timer_event`, `set_period`, `reset`, and the two callbacks of a
--   time jump. `Timer/Registry` is the map `id2_timer_info` with the id counter, which wraps at 2^32:
--   `allocate_timer_id`, `register_timer_info`, `unregister_timer_info`, `prepare_epoll` and `handle` of
--   the two handlers. Results of system calls, the clock and the state of the timer object are
--   arguments or fields; what the code asks of the kernel and the executor is the list `actions`. Times
--   are unbounded integers and periods natural numbers: sums of 64-bit nanoseconds that would overflow
--   and negative periods are not modelled. Nor are a failing `epoll_ctl` or a `timerfd_settime` that
--   fails outside registration, and the destructor of a registered timer, which runs when the last
--   queued callable lets go of it.
-- ThreadConfig -- src/agnocast_cie_thread_configurator/src/sched_policy.cpp and thread_config.cpp.
--   `Policy` is the table of scheduling policies with its lookups, `Attrs` the parsing of the attributes
--   of an entry of `callback_groups` or `non_ros_threads` (`parse_attrs` is that part of `parse_yaml`),
--   `Affinity` the canonical form of a CPU list. A conversion of yaml-cpp from a scalar is a parameter,
--   as is the largest CPU number; an exception is `none`. No theorem assumes anything of them.
--
-- Kmod -- agnocast_kmod, the kernel module. `Kmod/State` has the structs of agnocast_internal.h: a hash
--   table or a tree is the list of what it holds (the entries of a topic in the order of their ids), a
--   pointer is an id, the bitmap of an entry the list of its bits. `Kmod/Topic` is agnocast_ioctl.c and
--   the exit handlers of agnocast_internal.c on one `topic_struct`: `Delivery` (`is_entry_deliverable`,
--   the domain rules), `Notify` (the lists of contexts a publisher signals), `Insert` (registration),
--   `Publish` (`publish_msg`, `release_msgs_to_meet_depth`), `Receive` (`receive_msg`, `take_msg`),
--   `Release`, and `Remove` (removal of endpoints, exit of a process). The processes and rules are the
--   argument `Env` of a call and may differ at every call; `Steps` has a call as a step and a history as
--   a list of them. Each call is one step: the calls that only read-lock the topic (receive, take,
--   release) may overlap in the code, where they touch different subscribers' fields and different bits,
--   and two receives of one subscriber are kept apart by the user library. `Held`, `Depth`, `Window` and
--   `Valid` have the proofs. The success of an allocation is an argument; that of a registration stands
--   for both of its allocations. Counters and ids do not wrap: `entries_num` counts entries in memory,
--   `current_entry_id` has 64 bits. The iteration order of a hash table is that of the list, and no
--   theorem depends on it. `Kmod/ExitQueue` is the ring of exited processes of agnocast_internal.c with
--   the loop of the worker of agnocast_init.c, which has fuel for its rounds: one more than ids wait is
--   enough. `Kmod/Memory` is agnocast_memory_allocator.c; a module parameter below 0 is as 0 there.
--   `Kmod/Processes` is the table of processes with the pools: `add_process`, the part of
--   `agnocast_process_exit_cleanup` before the topics, the collection of exited processes by the unlink
--   daemon and the shutdown of bridge managers; `Runs` has its calls as steps.
--
-- Time stamps of messages are natural numbers of nanoseconds, and durations of either sign are integers.
--
-- Not modelled: locks and interleavings of threads (each operation is one step), logging, the clock
-- types of `rclcpp::Time`, the registration of callbacks, copy assignment of the policies, and the other
-- parts of the repository: what the kernel module does besides (the search and grouping of topics,
-- bridges, the making of domain rules, the discovery agent, the mapping of memory, queries), the heap
-- hook, the user side of the bridges, the executors, the nodes, the services, the component containers,
-- the rest of the thread configurator and the tools.
pub mod Prelude
pub mod SmartPtr
pub mod MessageFilters
pub mod Timer
pub mod ThreadConfig
pub mod Kmod

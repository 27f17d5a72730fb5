-- ===== src/Lib.antt =====
-- Lotto runs a multithreaded program one task at a time, so that a schedule can be chosen,
-- recorded and replayed. A task that reaches a capture point calls the mediator
-- (src/runtime/mediator.c). The mediator asks the sequencer (src/engine/sequencer.c), which lets
-- the handlers of the modules say which tasks may run, picks the next task and returns a plan
-- (src/engine/plan.c): a set of actions. The mediator carries the plan out, some actions before
-- the task blocks or yields and the rest when it resumes. Waking and yielding are calls of the
-- switcher (src/runtime/switcher.c), in which all tasks but the running one wait. The handlers
-- of mutexes (modules/mutex/src/handler.c) and of reader-writer locks
-- (modules/rwlock/src/handler.c) keep who owns and who waits for each lock, and take the waiting
-- tasks out of the sequencer's set; the handler of joined threads (modules/join/src/handler.c)
-- does so for the tasks that wait for a thread to end. The deadlock handler
-- (modules/deadlock/src/handler.c) keeps which tasks hold or wait for which resource, and
-- searches that for cycles. The recorder (src/engine/recorder.c) appends what is recorded to a
-- queue of records, such as a flat trace (src/base/trace_flat.c), and feeds a recorded queue
-- back at the next run's clocks. Sets of addresses are binary decision diagrams
-- (src/base/address_bdd.c). The sets of tasks, the bags and the maps that all of this keeps its
-- state in are in src/base.
--
-- Files:
--  Base: the result of a C function (a value, or an abort, or a wrong memory access), lists,
--    words.
--  Tidset: src/base/tidset.c. Valid has the invariant, Members the set operations, Slots the
--    writes by index, Keys the restriction by a map, Image the round trip, Loops the array
--    loops.
--  Tidbag: src/base/tidbag.c, by how often an id is held. Map: src/base/map.c and
--    src/base/tidmap.c.
--  Bag: src/base/bag.c in an explicit heap. Reason: src/base/reason.c. Plan: src/engine/plan.c.
--  Sequencer: src/engine/sequencer.c; Capture has sequencer_capture and sequencer_return, Record
--    the recording (with src/base/record_granularity.c) and sequencer_resume, Select the picked
--    task, Pending the tasks that returned from a blocking operation.
--  Mediator: src/runtime/mediator.c; Protocol, Shapes and Carried follow the sequencer's plans
--    through capture, return and resume in the order of src/runtime/ingress.c.
--  Mutex: modules/mutex/src/handler.c; Handle has the capture handler and the resume subscriber,
--    Owner the transition system. Event: the fields of capture points and decisions that the
--    lock handlers use.
--  Rwlock: modules/rwlock/src/handler.c; Handle has the capture handler and the resume
--    subscriber, Effects and Writers what each operation writes, Waiting the tasks that are
--    taken out, Runs the reachable states, Capture and Acquire a task that waits and then takes
--    its lock.
--  Join: modules/join/src/handler.c; Handle has the capture handler, Waits the chains of waiting
--    tasks, Steps, Joining and Runs what the handler keeps of them, Again a thread that is
--    joined twice.
--  Deadlock: modules/deadlock/src/handler.c; Alike has maps whose bags hold the same tasks,
--    Restore a task that is taken out and put back, Keys the resources that are met, Search the
--    search for a cycle.
--  TraceFlat: src/base/trace_flat.c on an explicit heap; Linked and Queue have the list of cells
--    that the nodes are, Append, Pop, Forget and Search the operations on it, Simulation all of
--    them as commands.
--  Recorder: src/engine/recorder.c; Out has the output trace, Replays what a clock takes from
--    the input, Runs a recording and its replay, Ends the last record.
--  AddressBdd: src/base/address_bdd.c; Blocks has the set that a diagram stands for, Update and
--    Sets the ranges that are set, Check those that are tested, Canonical that a set has one
--    diagram; Iterator the iterator, with the path to its node (Paths), its searches (Advance),
--    what it returns (Next) and how often (Count).
--  Switcher: src/runtime/switcher.c; Runs has the interleavings of its critical sections, Turns
--    and Steps what one does, Baton who is enabled, Counters and Buckets whom a wake signals.
--
-- A function's name is that of the C function without its prefix (tidset_insert is
-- Tidset.insert, _posthandle_acquire is posthandle_acquire); a name that would be an operation
-- of the language gets a suffix (tidset_set is set_at, sequencer_return is return_from). A C
-- array with its size is a list; a pointer to a map item is its key; ASSERT and ENSURE are
-- faults. Words of 64 bits wrap where the code doubles a capacity; counters of events are
-- unbounded. The mediator's loops run on fuel 10 and a plan has at most nine actions; the loop
-- over granularities runs on fuel 34, two more than the bits of its counter; the search of the
-- mutex handler runs on a fuel that is an argument, and so do that of the deadlock handler, for
-- which more than the number of tasks in all bags is enough, the loops over a trace, for which
-- more than its length is enough, and the loop of a join. A range of a diagram is set with fuel
-- 65, one more than the levels that an address has bits, and its iterator climbs with fuel 129,
-- two for each level and one for the root.
--
-- What the models take as arguments: the handlers that the sequencer asks, the answer of the
-- recorder, the states that the state manager marshals, the answer of trace_append, the owner of
-- a mutex in the deadlock handler, the value of the random generator, the addresses that the
-- allocator returns, the writes to a stream, and when a wait on a condition variable ends.
-- Allocation succeeds, the arguments of a call do not alias, and log lines are left out. Not
-- modelled: the files of traces, the state manager but for the kinds of record that it refuses,
-- the other handlers, the driver and the instrumentation.
pub mod AddressBdd
pub mod Bag
pub mod Base
pub mod Deadlock
pub mod Event
pub mod Join
pub mod Map
pub mod Mediator
pub mod Mutex
pub mod Plan
pub mod Reason
pub mod Recorder
pub mod Rwlock
pub mod Sequencer
pub mod Switcher
pub mod Tidbag
pub mod Tidset
pub mod TraceFlat

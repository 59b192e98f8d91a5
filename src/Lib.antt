-- ===== src/Lib.antt =====
-- flowline is a workflow system: an API server stores workflows, dags, jobs and stages, controllers
-- derive the one from the other, a scheduler assigns stages to workers, and workers run their code.
-- This library models the data structures at its core that keep state and decide in which order work
-- is done. The paths below are paths of the repository.
--
-- WorkQueue.Queue models pkg/util/workqueue/queue.go: the queue from which the controllers take
-- their keys, with the sets of dirty and of processed items. A Get that waits
-- is a step that reports so, and a later step tries again, so that a history is a sequence of steps
-- under the lock; the sleep of ShutDownWithDrain is a step of Waiting. The children are Invariant (the invariant over histories), Status (the view of
-- one item), Order (the order of items), Waiting (the callers that sleep on the condition variable, and
-- which calls wake them), Calm (that none is forgotten) and Drain (the shutdown).
-- WorkQueue.Limiters models the limiters of
-- pkg/util/workqueue/default_rate_limiters.go that count in integers.
--
-- GoHeap is container/heap of the Go standard library, as its documentation and source give it, over
-- an Interface whose laws a View states. Its loops run on fuel: the length of the heap for the way
-- up, and for the way down; the lemmas of GoHeap.Up and GoHeap.Down show that it is enough.
--
-- Scheduler.Heap models pkg/scheduler/heap/heap.go, a heap with a map from keys to items and
-- their indices, with every index out of range and every nil pointer as a panic.
-- Scheduler.Heap.Invariant shows that its swap is a View, and Add and Remove state the methods against
-- a map from keys to objects.
--
-- Scheduler.Types models what the scheduling queue uses of pkg/scheduler/framework/types.go and
-- pkg/api/meta/stage.go, Scheduler.Sort the order of
-- pkg/scheduler/framework/plugins/queuesort.
--
-- Scheduler.Nominator and Scheduler.Queue model pkg/scheduler/queue/scheduling_queue.go. A stage is in
-- one of three places: the active heap, the backoff heap, and the map of unschedulable stages. Both
-- heaps have the name of a stage for their key and the map has its UID, so that the invariant in
-- Scheduler.Queue.Places asks for an injective function from names to UIDs that the unschedulable
-- stages follow. Moves has the moves between the places, Calls the calls from outside; Stay and Moved
-- are about the moves, Flush about the backoff queue, Take and Return about the calls of the
-- scheduling loop, NilOld about Update without an old stage, and Backoff about the length of a
-- backoff. flushBackoffQCompleted runs on fuel, one more than the stages in backoff, which is shown
-- to be enough. The clock stands still during a call. The lister of stages is a parameter.
--
-- Scheduler.Cache models pkg/scheduler/cache/cache.go without its snapshots, and WorkerInfo of
-- pkg/scheduler/framework/types.go without its sums of resources. Api has the methods that the
-- scheduler calls. Pointers has the linked list of the workers, whose pointers are the keys of the
-- items. Invariant says what the cache keeps; Stages is about the removal from the stages of a worker,
-- Calls, Removals and Methods about the methods, Histories about histories, and Sweep about the cleanup.
-- Pointers.Unlink and Moves are about the list that the pointers hold. The lock is left out but for the
-- cleanup, which calls a method that takes it again.
--
-- Scheduler.WorkerTree models pkg/scheduler/cache/worker_tree.go. The outer loop of its list method runs on
-- fuel, one more than the number of workers; Rounds and Listing show that it is enough, since every
-- round but the last adds a worker.
--
-- Fifo models pkg/informer/fifo.go and DeltaFifo models pkg/informer/delta_fifo.go, which has the same
-- fields with a list of deltas per object, and the same loop in Pop. DeltaFifo.Deltas is about the
-- compression of deltas, Invariant and Methods about what the methods keep, Histories about histories
-- and Pop, Loops and Replaced about Replace. The key functions, the callbacks of Pop and the known
-- objects are arguments, failures included. An object is not itself a list of deltas.
--
-- Store models pkg/informer/thread_safe_store.go, the objects by key with their indices, and
-- Store.Cache the store of pkg/informer/store.go over it. Store.Index is about one index, Invariant about
-- updateIndices, Writes and Histories about the methods, Lookups about the reads by index. An index
-- function is an argument; one that fails makes the update panic.
--
-- RingGrowing models pkg/util/buffer/buffer.go, the buffer of the notifications of a listener; Copies
-- is about slices and copies, Refine about one call and Histories about many.
--
-- Framer models the frames with a length of pkg/util/framer/framer.go; RoundTrip is about reading what
-- was written, in parts.
--
-- Backoff models pkg/util/flowcontrol/backoff.go, whose durations wrap around in 64 bits, and Sets
-- models pkg/util/sets/string.go. A Go map is an association list; Go's order of ranging over it is not
-- specified, and the results do not depend on
-- it but for the order of lists and of queued ids.
--
-- Times and durations are natural numbers of nanoseconds. Integers do not overflow: counts, times and
-- durations stay far below 2^63.
--
-- Not modelled: network, storage and encodings (pkg/apiserver, pkg/api/client, pkg/runtime), the
-- goroutines and channels (pkg/watch, pkg/util/parallelizer, the reflector of pkg/informer), the
-- sandbox of pkg/worker, flags and start-up (cmd, pkg/manager), the metrics of the work queue, and
-- List and StringKeySet of the sets of strings.
pub mod Backoff
pub mod Base
pub mod DeltaFifo
pub mod Fifo
pub mod Framer
pub mod GoHeap
pub mod RingGrowing
pub mod Scheduler
pub mod Sets
pub mod Store
pub mod WorkQueue

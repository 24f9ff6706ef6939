-- ===== src/Lib.antt =====
-- A verification library for lockless, the lock-free data structures in include/lockless/.
--
-- Parts, and the code of each
--   Ring      include/lockless/ring_buffer.hpp, RingBuffer. Ring.step is one shared access of try_push
--             or try_pop, and Ring.Reach the states that threads reach by such steps. Ring/Calls has the
--             whole calls try_push, try_pop, try_push_batch and try_pop_batch with one thread at work;
--             Ring/Solo ties the two views together. Ring/Invariant, Ring/Reachable and Ring/History
--             carry the proofs, Ring/Safety, Ring/Alone and Ring/Batch state what follows.
--   Spsc      include/lockless/spsc_queue.hpp, SPSCQueue: push_step and pop_step are the shared accesses
--             of the producer and the consumer, Spsc.Calls the whole calls.
--   Arena     include/lockless/message_queue.hpp, SharedMemoryArena: allocate by steps (Arena.step) and
--             as a call (allocate), get and get_offset on addresses.
--   Messages  include/lockless/message_queue.hpp, ZeroCopyQueue: a Ring of handles over an Arena.
--             Messages/Shared has many threads in both, step by step.
--   Book      include/lockless/order_book.hpp, OrderBook: submit_order puts an order into a Ring,
--             process_orders takes a batch out of it and applies it to the atomics (Levels).
--             Book.Single.apply is a plain account of process_single_order. Book/Shared cuts
--             process_single_order into steps (Book.Shared.step) that threads interleave; Book/Market
--             has submit_order and process_orders of many threads, over these and the steps of Ring.
--   Stack     include/lockless/array_stack.hpp, ArrayLockFreeStack (LockFreeStack in stack.hpp): two
--             linked lists of indices through one array, with tagged heads. Stack.Lifo.push and pop are
--             the abstract stack. Stack.try_push and try_pop are whole calls with one thread at work;
--             Stack/Shared cuts them into steps (Stack.Shared.step) that threads interleave.
--   Pool      include/lockless/object_pool.hpp, LockFreeObjectPool: a Stack of free indices. Pool/Shared
--             has the constructor, acquire and release of many threads over the steps of Stack/Shared.
--   Map       include/lockless/hash_map.hpp, LockFreeHashMap: insert and find as whole calls with one
--             thread at work, and in Map/Refine the finite map that they stand for; Map/Shared cuts them
--             into steps (Map.Shared.step) that threads interleave.
--   Epoch     include/lockless/epoch_reclaimer.hpp, EpochReclaimer: Epoch.step is one shared access of
--             enter_critical, retire or try_advance; Epoch/Calls has the whole calls with one thread at
--             work, and the search for a slot of register_thread.
--   Validator include/lockless/ordering_validator.hpp, OrderingValidator and ScopedOperation: recording,
--             check_sequential_consistency and print_statistics.
--   Cache     include/lockless/cache_utils.hpp and common.hpp: the padding of CacheAligned, and when
--             FalseSharingDetector warns, as arithmetic on sizes and addresses.
--   Monitor   include/lockless/performance_monitor.hpp, PerformanceMonitor and ProfileResult.
--   Examples  examples/order_book_example.cpp (Examples/Trading) and examples/ring_buffer_example.cpp
--             (Examples/Rings, Examples/Mpmc): what the programs compute, over Book and Ring.
--             Examples/Fleet has their threads, each in a loop of calls, over the steps of Ring.
--   Queue     the abstract bounded queue that Ring, Spsc and Messages are measured against.
--   Common    names of the libraries passed on, machine words, arrays, lists and masks.
--
-- Concurrency. A call of Ring, Spsc, Arena, Messages/Shared, Epoch, Stack/Shared, Pool/Shared,
-- Map/Shared, Book/Shared, Book/Market or Examples/Fleet is cut into steps with one shared access each,
-- and threads interleave step by step. Memory orders are not modelled: every interleaving is
-- sequentially consistent. A history of what was reserved, published and taken is kept beside the
-- program's state, for the statements only. Validator is modelled with one thread at work but for the two
-- halves of record_operation_start, which Validator/Race lets two threads cross.
--
-- Loops. compare_exchange_weak may fail although the values agree. In a step that is a Boolean argument;
-- in a whole call a list of Booleans says for each exchange whether it fails, and serves as the fuel of
-- the loop. A call that needs a result asks that the list has one exchange that does not fail
-- (may_succeed), which is all the documentation of the exchange promises in the long run. A loop over
-- calls has such a list for each of them.
--
-- Numbers. size_t, uint64_t and uint32_t are natural numbers with the wrap written out (Common/Words).
-- The counters of Ring never wrap back, and its test on a signed difference is right only below 2 ^ 63:
-- the theorems on Ring ask that the items pushed so far, plus Size, stay below that. Spsc needs no such
-- bound. Blocks of an Arena are apart as long as no sum of its size and a request reaches 2 ^ 64, and the
-- Book is right as long as no total overflows (Roomy). The tags of the stack's heads wrap at 2 ^ 32: the
-- theorems on Stack/Shared ask for fewer than 2 ^ 32 won exchanges, and those on Epoch/Grace for an epoch
-- below 2 ^ 64 - 1, whose pattern marks a thread outside. The counts of Validator are of type int, by
-- their patterns of 32 bits; C++ does not say what an int's overflow does, and the theorem on them asks
-- that none overflows.
--
-- Arrays. An array is a function of its index; Ring and Spsc use it at masked indices only. A
-- moved-from item is not used again, so the two overloads of a call are one definition.
--
-- Parameters. std::hash and == of the keys of a Map are arguments of its functions; the theorems on
-- Map/Lookup ask only that a key equals itself, those on Map/Refine and Map/Shared that == is equality.
-- The readings of the clock and std::sort are arguments in Validator, those of the clock and of the time
-- stamp counter in Monitor. The size of a CacheAligned is the compiler's, taken to be value and padding
-- rounded up to the alignment.
--
-- Rounds. A loop of Examples that has no bound in the code is given a number of rounds: none stands for
-- a loop that has not ended, and the theorems say how many rounds are enough.
--
-- Not modelled: memory orders and fences, the bytes that an arena hands out, is_lock_free, PriceLevel
-- (used by nothing), two threads inside register_thread at once (a slot is taken in one step), the texts
-- that are printed, the ThreadSanitizer annotations, doubles (Monitor keeps the integers that they are
-- the quotients of), what the examples print on the way, benchmarks and tests.
pub mod Common
pub mod Queue
pub mod Ring
pub mod Spsc
pub mod Arena
pub mod Messages
pub mod Book
pub mod Stack
pub mod Pool
pub mod Map
pub mod Epoch
pub mod Validator
pub mod Cache
pub mod Monitor
pub mod Examples

-- ===== src/Lib.antt =====
-- Scalable nonzero indicators (SNZI): the trees of snzi.hpp under any interleaving of threads, and
-- the small classes beside them.
--
-- An indicator counts arrivals less departures in a perfect K-ary tree of counters. A thread calls
-- Arrive and Depart on a leaf; a node calls its parent only when its own counter leaves or reaches
-- zero, so that Query need only look at the root.
--
-- Files and code:
--   Base           names, Boolean tests, 64-bit words, sums over families, fields of bits.
--   Tree           the constructor of the classes of snzi.hpp and their private functions
--                  nodes_count, leaves_count, pow_int, parent and get_leaf_for_thread. The three
--                  classes repeat this code; the model has it once. Tree/Double is the arithmetic
--                  on double that the constructor uses, Tree/Count, Tree/Perfect and Tree/Leaf say
--                  what is built.
--   Node           the interface between the code of `struct node` and the tree that runs it: a
--                  record of the code, one atomic access at a time, and a record of its laws.
--   NoContention   `struct node` of no_contention_handling_snzi, and its laws.
--   SemiContention `struct node` of semi_contention_handling_snzi, and its laws.
--   FullContention full_contention_handling_snzi: the flags and the direct calls. FullContention/System
--                  is n threads that go directly and through the tree. Each is two threads of
--                  Machine, one of which starts at the root (Halves, Match), so that its states
--                  project to states of Machine (Agree, Simulate) and take their properties from
--                  there (Courses, Returns, Correct). Load and Settles are about any order of
--                  accesses once no call is invoked. Routes and Stranded are about the flags.
--   Machine        n threads on a tree: the memory, the stack of calls from node to node, and what
--                  an event of a thread does. Machine/Books counts what a call owes to each node,
--                  Machine/Shape and Machine/Commit say when a call takes effect,
--                  Machine/Invariant, Machine/Query and Machine/Refines carry the proofs for any
--                  code that meets the interface of Node; Machine/Alone and Machine/Returns are
--                  about a thread that runs alone, Machine/Load and Machine/Settles about any
--                  order of accesses once no call is invoked; what they need to know of a node
--                  is in Progress and Costs of NoContention and SemiContention.
--   Indicator      the abstract indicator: one surplus, and clients whose operations take effect
--                  once between invocation and return; a Run of it has the events of the tree's run.
--                  Indicator/Surplus reads the surplus off the
--                  clients.
--   Class          the interface between the classes of snzi.hpp and a program that uses one of their
--                  objects: a record of operations and two records of laws. Class/Nodes fills it with
--                  no_contention_handling_snzi and semi_contention_handling_snzi, Class/Full with
--                  full_contention_handling_snzi. Class/Cost counts accesses against returns.
--   Backoff        backoff.hpp.
--   StampedCounter stamped_counter.hpp; StampedCounter/Proxies has a store of counters and proxies
--                  that refer to them.
--   Affinity       affinity.hpp.
--   Profile        cache_wiper in profile.hpp; Profile/Sums is about what it adds up.
--   Evaluation     the programs snzi_perf_eval_no_contention.cpp, snzi_perf_eval_semi_contention.cpp
--                  and snzi_perf_eval_full_contention.cpp: thread_job; Evaluation/Experiment is
--                  run_experiment_for_tree, Evaluation/Report is main. They use Tree, Affinity and
--                  Profile; Job, Runs, Table and Trees of Evaluation are about them.
--                  Evaluation/Crew is the threads of a run in thread_job, interleaved on one object
--                  of any class that meets the interface of Class. Crew/Placed says where they
--                  stand, Crew/Follows takes one of them by itself, Crew/Ends counts the steps
--                  that are left when the time is over, Crew/Programs has the three programs,
--                  Crew/Queries is about Query, Crew/Costs is Class/Cost for the three classes,
--                  and Crew/Totals and Crew/Whole are about run_experiment_for_tree and main.
--   Tests          concrete trees, runs and values.
--
-- State and steps. A state is the root's counter, the cells of the other nodes by index, and for
-- each thread the arrivals it holds and its stack of calls. An event is an invocation or the next
-- atomic access of one thread; Reach is every state that any sequence of events leads to. Atomic
-- accesses are sequentially consistent, as the default order of std::atomic is. A Boolean in an
-- access event is true where compare_exchange_weak fails for no reason; the strong form of
-- semi_contention_handling_snzi ignores it. Locals live in the program points `Pc`. Code between
-- two accesses runs with the access before it. Query is one access of the root and reads only.
--
-- Bounds. `size_type` and `counter_type` are 64-bit words with the wrap written out. The theorems
-- on runs ask that n * (quota + 2) plus the number of nodes and 1 is below 2 ^ 64, where `quota`
-- bounds the arrivals that a thread holds at a time; those on full_contention_handling_snzi have a
-- quota of 1 and ask for 6 * n, as each thread counts as two there. They ask that
-- K ^ (H + 1) fits a word, so that the sizes are exact. `pow_int` with the largest size_type as
-- exponent does not end in the code; the theorems are about smaller ones. The two searches of a
-- binary exponent in Tree/Double have fuel 128: operands below 2 ^ 64 need at most 64 + 53 rounds.
--
-- The memory of `new node[total_nodes]` holds a `parent` that nothing has set: it is an argument,
-- `raw`, of the constructor, and the theorems hold for every one. For how many nodes `new` has room is
-- an argument too, `room`. The assertion K != 1 of
-- nodes_count comes after the constructor's own test. A thread departs only from an arrival that it
-- has made itself, as the comment above the classes asks.
--
-- The evaluation programs take what they do not compute as parameters: a Scheduler for the calls
-- that pin a thread, a Host and a Setting for the number of cores and what each run finds, a Watch
-- for what a thread loads from `flag` and reads from its clock, and Doubles for the arithmetic on
-- double. Evaluation/Crew takes the clock as an input of each step, has `flag` in its state, and
-- keeps what a thread was told and what it called as history, which no step reads. The loops of the
-- other files are recursion on what is left of a list or on a count, and a list of readings or
-- loads that ends before the loop does stands for a thread that never ends.
--
-- Not modelled: terminal output, and the overflow of a time point; a negative number of threads or
-- id in Affinity, which are `int` there and end in its assertions; an exception of `new` in cache_wiper;
-- caches, false sharing and alignment, which no result depends on.
pub mod Base
pub mod Tree
pub mod Node
pub mod Machine
pub mod NoContention
pub mod Indicator
pub mod Backoff
pub mod SemiContention
pub mod FullContention
pub mod Tests
pub mod StampedCounter
pub mod Affinity
pub mod Profile
pub mod Class
pub mod Evaluation

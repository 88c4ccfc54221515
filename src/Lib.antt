-- ===== src/Lib.antt =====
-- Programs of the Genspark training repository: small C programs, each one file, that implement parts of
-- database and storage systems. They do not call one another; the key-value servers share one store
-- library. What is modelled, and where:
--
--   Mvcc           mvcc-in-memory-key-value.c. Mvcc.State has the structs and find_key_index, Mvcc.Chain the
--                  version list of a key, Mvcc.Deadlock dfs_cycle and detect_deadlock, Mvcc.Locks
--                  try_acquire_lock and the release loops, Mvcc.Ops begin_tx, tx_read, tx_write, tx_commit
--                  and tx_abort, Mvcc.Run sequences of calls, one after the other as main makes them.
--                  tx_commit takes its timestamp before it takes global_lock; Mvcc.Overlap has these two
--                  steps apart, with the calls of other threads between them. There begin_tx, tx_write and
--                  tx_abort are one step each, though tx_write tests the state outside the lock and takes the
--                  lock twice. A value of 32 bytes has no terminator, so what is said of tx_read
--                  is for an out_len of at most 32, as main has it.
--                  Timestamps are numbers below 2^64 and wrap as written; the search for a cycle runs on fuel,
--                  the number of transactions, which is enough since a nested call marks a new transaction.
--                  Mvcc.Deadlock.Graph has the paths of the wait-for graph, Mvcc.Invariant, Mvcc.Buffer,
--                  Mvcc.Snapshot, Mvcc.Reads, Mvcc.Release and the modules below Mvcc.Overlap the proofs.
--   PageCache      page_cache_simulator.c: simulateLRU, simulateClock and simulateARC, a request at a time,
--                  with the helpers findPage, contains, removeNode, addToFront, removeLRU and replaceARC.
--                  The sweep of the clock runs on fuel, one more than there are frames.
--   HashMap        pthread-hash-map.c: hash, hashmap_insert, hashmap_lookup and the inserts of the workers.
--   KvStore        Modularize Key-Value/kvstore_functions.c (KvStore.Store), the requests and replies of
--                  mini-key-value/server.c and key-value/server.c, and handle_client of
--                  Modularize Key-Value/server_main.c (KvStore.Server). KvStore.Scan writes out the sscanf
--                  directives that the servers use.
--   Wal            WAL-demo.c: the commands and recover_from_wal, on the contents of wal.log and db.txt.
--                  Wal.Scan has fgets and sscanf as the C standard describes their results.
--   BoundedQueue   bounded-producer-consumer-queue.c: a critical section or a futex call is a step of a
--                  transition function; executions are sequences of steps in any order of the threads.
--   CondBuffer     threads-buffer-w-p&c.c: producerfunc and consumerfunc with two condition variables; a critical
--                  section is a step. A number that is produced last is consumed first.
--   ClientTable    multi-client-chat-server/server.c and multi-client-echo/server.c: a round of the loop around
--                  select, given what accept and read return and which sockets are ready.
--   RedBlack       R-Blacktree-file-2.c, and RD-Black-tree-1.c, which has the same functions: the rotations,
--                  fixinsertion and insertion. A pointer into the tree is a subtree with the frames above
--                  it. The fix-up runs on fuel, one more than there are frames, since a round shortens the
--                  way up.
--   MemoryLog      memorylog.c: the list of allocated blocks and the menu actions; MemoryLog.Live follows the
--                  blocks in use apart from the list.
--   BufferPool     filesystem.c: createbufferpool, acquire_buffer, release_buffer and the write of files into a
--                  buffer.
--   BlockCache     filesystem.c: the block cache on top of the pool. The nodes are on a heap, given by a family
--                  for each field with a counter for fresh addresses; BlockCache.Links has the doubly linked
--                  list, Lookup what a chain of the hash table is, Recency, Contents, Replace, Valid, Insert
--                  and Hits the proofs, Files the calls of files, Lost the lookup that misses. A lookup runs
--                  on fuel, two more than there are nodes.
--   Students       student.c: students, the loop of main, the menu entry that adds a student, the searches, the
--                  counts and averages. A float is given by its operations, and fresh memory has any contents.
--                  Students.Register has unique rolls and names, Entry a call of students, Retreat the
--                  tests after it, Rounds the loop.
--   Evaluator      expression_evaluator.c: createNode, inorder and evaluate. Evaluator.Meaning has the expressions
--                  that the trees stand for, with sorts, and their meaning.
--   QueryPipeline  qee.c: scan, filter and projection; scores are natural numbers. The loops run on fuel, one more than there are rows.
--   WordCount      task-word-count-pthread.c: the workers and the division into chunks.
--   KeywordSearch  Mmap-file-search.c: the loop over the mapped file, on fuel, two more than the file has bytes.
--   MiniShell      minishell.c: what a line becomes. strtok is written out as the C standard describes it.
--   FileCopy       file-copy.c: read_all, write_all and the loop, given what read and write return. The fuel of the
--                  loop is more than the bytes of the file, since a round copies at least one. FileCopy.Verify has the
--                  comparison at the end.
--   Filtering      filtering.c: linearsearch and binarysearch on a sorted table.
--
-- Base has what they share: Boolean tests on numbers, lists under native numbers, C strings as byte lists
-- without the terminator, `int` values, and the loop that looks for the first index that passes a test.
--
-- An unsigned w-bit number keeps its wrap-around. Counters and indices that stay far below 2^31 are plain
-- numbers. malloc is taken to succeed but where its result is an argument. Printing, sockets, signals and
-- the time are left out. Not modelled are the other servers and the clients, the other file copies, the
-- io_uring, eBPF and kernel programs, which hand their work to system calls; the generated lexer and parser;
-- the programs that measure or print around library calls (scheduler.c, multiple-simulated-q.c, the counters);
-- and signal-based-job-controller.c, whose children inherit its handlers: what it does is up to the kernel.
pub mod Base
pub mod Mvcc
pub mod PageCache
pub mod HashMap
pub mod KvStore
pub mod Wal
pub mod BoundedQueue
pub mod RedBlack
pub mod MemoryLog
pub mod QueryPipeline
pub mod WordCount
pub mod Filtering
pub mod BufferPool
pub mod BlockCache
pub mod Students
pub mod CondBuffer
pub mod ClientTable
pub mod Evaluator
pub mod KeywordSearch
pub mod MiniShell
pub mod FileCopy

-- ===== src/Lib.antt =====
-- J Auto-Profiler: the native agent (c-src/main), a JVMTI agent that instruments running Java code
-- and reports timings over a socket.
--
-- The parts, and the files that model them:
--
-- - HashTab.antt: util/hash-tab.c, the map on which the registries of the agent stand. Its
--   children: Probe, Search, Room (probe sequences), Order, Links (the threaded list), Insert, Put
--   (hash_insert), Cluster, Move, Begin, Remove, Delete (hash_tab_remove), Copy, Rehash (rehash),
--   Valid, Update, View (the invariant and the finite map that a table stands for), Map, Iterate, Assign.
-- - ErrLog.antt: prof-err-log.c, the ring of asynchronous errors.
-- - MasterInstruments.antt: master-instruments.c, the registry of instruments by id, which uses the
--   table through the theorems of HashTab/Map, HashTab/Delete and HashTab/Assign only. Its children:
--   Keys, Registry (adding and removing), Marks (marking as applied).
-- - DynArr.antt and Queued.antt: util/dyn-arr.c and queued-instrument.c, the queue of instruments
--   whose class is not loaded yet.
-- - Bytecode.antt: bytecode.c, the reader of class files that finds their methods.
-- - UserIf.antt: user-if.c, how the bytes of a client become messages.
-- - Requests.antt: ps-uif-handler.c, the requests in the bodies of those messages.
-- - Responses.antt: uif-response.c, the sizes and bytes of the responses of varying length; Responses/Short
--   has those of fixed size.
-- - ClassInfo.antt: class-info.c and class-info-list.c, the loaded classes with their instruments. Its
--   children: Instruments (taking one out), Adding (the list of classes).
-- - EvQueue.antt: util/ev-queue.c, the queue between the threads. Its children: Chain (lists of
--   nodes), Fifo (each operation), Trace (whole lives of a queue).
-- - ThreadPause.antt: ps-thread-state.c, suspending the threads of the application in rounds.
-- - ServerEv.antt and ServerEv/Send: prof-server-ev.c and prof-server-msg.h, the messages to the server's
--   thread and the counts of clients they hold; ServerEv/Counts has what sending does.
-- - Server.antt: prof-server.c, the handlers and the event loop. It stands on the queue, the messages,
--   the responses and the pausing of threads, and takes the instrument handler as the interface
--   InstrHandler. Server/Dispatch has the dispatch and the loop, Server/Keeps what a handler keeps,
--   Server/Classes the loading of a class with the operations of Instruments.antt behind the
--   interface, and Server/Counting all threads together as a step relation.
-- - Instruments.antt: instrument-handler.c and instrument-handler.h, over the registry, the queue of
--   instruments, the classes and the error log. Its children hold the code: Apply (putting an instrument
--   into a class), Deferred (the queue and what a loaded class applies of it), Remove (deinstrumenting),
--   Handle (the requests to instrument) and Reapply (a class that is loaded again); and the proofs:
--   Ensures (rules for steps), Sound (the invariant of the context), Steps, Classes, Applying, Queue,
--   Waiting (what each step keeps), Stays, Settled and Settling (what is applied waits no more), Loading,
--   Adding, Dropping, Removing, Reapplying, LineExit, Lines, Loaded (the entry points).
-- - Prelude.antt: shared names, with Prelude/Checked for code that reads memory.
--
-- Names are those of the source. An array is a function of the index, a pointer to an entry its
-- index, NULL is `none`, a failed assertion is the result `none`. Where a loop takes fuel, the
-- theorem about it says how much is enough: a table takes as many rounds as it has slots, the
-- constant pool as many as it announces entries, the event loop as many as messages wait. What runs
-- under a mutex is one step; what several threads do is a sequence of such steps.
--
-- An operation of the instrument handler is a function of a session: the context, the error log, how
-- many answers of the JVM and the allocator are used up, and the calls made to the JVM. It has no
-- result where the code would read through NULL, read the wrong member of a union or fail an
-- assertion. A read of freed memory and a class left without its arrays, where the code does not look
-- at a failed allocation, have none either, unless the session's answers say that they do no harm;
-- theorems that need this ask for it.
--
-- Not modelled: setting up and tearing down the server and the context of the instruments; the hook
-- that hands out the class being transformed, whose record `pending` is passed with each call
-- instead; the requests to instrument with the handler's own operations behind the server's
-- interface; the calls of the Java virtual machine (jni/, jvmti-hooks.c, jvm-shutdown.c), sockets,
-- logging and the file system; and the hash function, which is a copy of a public one and a
-- parameter here.
pub mod Prelude
pub mod Bytecode
pub mod ClassInfo
pub mod DynArr
pub mod ErrLog
pub mod EvQueue
pub mod HashTab
pub mod Instruments
pub mod MasterInstruments
pub mod Queued
pub mod Requests
pub mod Responses
pub mod Server
pub mod ServerEv
pub mod ThreadPause
pub mod UserIf

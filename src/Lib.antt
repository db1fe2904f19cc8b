-- ===== src/Lib.antt =====
-- Verification of ossl-scripts, a collection of tools for testing OpenSSL. The development is about
-- the C code, most of all the memory profiler in mprofile/.
--
-- The profiler is preloaded into a program and takes the place of OpenSSL's allocator. In mode 1
-- its wrappers (mprofile/init.c) put a header in front of every block and keep counters. In modes 2
-- to 5 they append a record to a per-thread profile (mprofile/record.c), with the call stack in a
-- set of stacks (mprofile/stack.c); at exit the profiles are merged by record number, and
-- build_chains links the records of one buffer.
--
-- Which file models what:
--   Base, Words        shared names, tests, lists; 64-bit words with their wrap-around
--   Stats              mprofile/init.c: struct memhdr, struct memstats, update_alloc,
--                      update_release, mp_CRYPTO_malloc_stats, mp_CRYPTO_free_stats,
--                      mp_CRYPTO_realloc_stats. Children: Counters and Runs (the effect of each
--                      group of updates and of each branch), Balance, Ledger (blocks in use),
--                      Session (whole runs), Faults, Threads (update_alloc and update_release run by
--                      several threads, one atomic access at a time)
--   Start              mprofile/init.c: mprofile_start and the init_* functions. Child: Modes
--   Stack              mprofile/stack.c: stack_compare, mprofile_init_stack, mprofile_push_frame,
--                      mprofile_copy_stack, mprofile_walk_stack and the getters; collect_backtrace
--                      of mprofile/init.c. Children: Order, Frames, Compare, Copy, Walk
--   Tree               the interface of mprofile/utils/tree.h; Keyed, Map, Members and Agree derive what
--                      a client relies on, Model is a list in order that meets it
--   Record             mprofile/record.c: struct mprofile_record and build_chains. Children:
--                      History (what a log says of the heap), Chains, Close, Link, Build
--   Stset              mprofile/stack.c: struct mprofile_stack_set, mprofile_create_stset,
--                      mprofile_add_stack. Children: Contents (what a set holds), Recount and Adding
--                      (one mprofile_add_stack), Counts (runs of it), Destroy (mprofile_destroy_stack,
--                      mprofile_destroy_stset), Merge (mprofile_merge_stack), Self (a set
--                      that is merged with itself)
--   Profile            mprofile/record.c: struct mprofile, mprofile_create, mprofile_record_alloc,
--                      mprofile_record_free, mprofile_record_realloc. Children: Log, Destroy
--                      (mprofile_destroy)
--   Trace              mprofile/init.c, modes 2 to 5: get_mprofile, the mp_CRYPTO_*_trace and the
--                      mp_CRYPTO_*_trace_with_stack functions, with mprofile_add. Children: Events,
--                      Calls and Release (the event that each call notes), Steps (one call), Session
--                      (runs of a thread), Program (several threads), Shared, Together and Runs (the
--                      records of all threads as one history)
--   Save               mprofile/record.c: mprofile_save. Children: Drain (the loop that empties the
--                      sorting tree), Merge (the whole function), Others (mprofile_destroy of all
--                      profiles but the first), Sorted, Alone (one thread with call stacks), Unique,
--                      Sample (data of tests)
--   Shlibs             mprofile/record.c: add_shlib, walk_stack, load_syms, mprofile_done, and
--                      mprofile_get_next_stack of mprofile/stack.c. Children: Table, Room, Load
--   Output             mprofile/record.c: print_mprofile_record, print_trace, print_stack,
--                      profile_save; save_stats of mprofile/init.c. Children: Json (a reader of JSON,
--                      the standard the files are measured by), Numerals, Pieces, Valid
--   Exit               mprofile/init.c: save_profile_trace and save_profile_trace_link_chains; the end
--                      of mprofile_save. Children: Valid, Chains, Run (from the first call to the file)
--   Annotation         mprofile/record.c: mprofile_get_annotation. Child: Escape
--   Ksyms              mprofile/ksyms.c: the table of kelf_open and kelf_snprintsym, with libelf,
--                      qsort and bsearch as parameters. Children: Open (the rest of kelf_open, from the
--                      name of the file to the table or the exit of the program), Last, Sections, Table,
--                      Lookup, Names, Loads (files that have a function); Model, a sort and a search
--                      that behave as the model asks
--   Backtrace          backtrace.test/backtrace.c, with its copy of ksyms.c. Children: Handler,
--                      Libraries, Symbols (bt_print_stack and the copy)
--   Base64             base64.so/base64.c: base64Encode, base64Decode, base64ArmAtExit, over an
--                      interface of OpenSSL's BIO. Children: Codec; Words (base64.so/explicit.c: the
--                      tables of words and the two parsers), Flags, ExitHandlers; Explicit (runTest
--                      and main of explicit.c), Implicit (main of base64.so/implicit.c) and Dll
--                      (base64.dll/base64.dll/base64.cpp and main of base64.dll/DllTest/DllTest.cpp)
--
-- The parts meet in the trace wrappers and at exit: Start says which wrappers and which hook a mode
-- gets, the wrappers of Trace call Profile, Stset and Stack, Save merges the profiles with
-- Stset.Merge and hands the queue to Record. Exit puts the end of a run together: Save, then Shlibs,
-- which walks the stacks of a set and opens the libraries with Ksyms, then Output. Base64 and
-- Backtrace are programs of their own; Backtrace shares Shlibs and Ksyms.
--
-- State is passed explicitly. An address is a number, NULL is 0, and an object that is reached by
-- its address stands in a store, a function of the address. What malloc and realloc answer is an
-- argument of each call, and a theorem that relies on their contract says so. The trees of
-- mprofile/utils/tree.h are a parameter, a record of operations and of laws about their elements in
-- order. A tail queue is the list of its elements. Timestamps are carried and not interpreted.
--
-- Files are lists of bytes, and every write succeeds. The numerals of printf are written out, on fuel
-- that is one more than the number, and so more than it has digits.
--
-- Three loops of the code run on fuel. The compare-and-exchange loop of update_alloc gets three rounds:
-- without other threads it reads, exchanges and reads once more; with other threads each round is a
-- step of Stats.Threads, without a bound. The loop that empties the sorting tree gets one round for
-- each record of it. The loop of parseExitHandler gets one round, since the copy that it searches ends
-- at its first comma from then on. All other loops recur on a list or on the rounds left.
--
-- The wrappers of the trace modes are followed through failing calls of realloc and one failing call of
-- malloc, which is recorded at NULL; a second one at NULL is what build_chains aborts on. The files at
-- exit are measured as ASCII: texts from outside that are in another encoding are out of the theorems
-- about JSON. Sizes of buffers in Base64 are not cut to an int, and the theorems bound them.
--
-- Not modelled: a failing strdup of add_shlib; threads that append to their profiles at the same time,
-- but for calls that follow each other; the handler of the backtrace test as compiled with libunwind,
-- and bt_init; mprofile/utils/tree.h and mprofile/utils/queue.h, which are OpenBSD's; the shell and
-- Python scripts; dllmain.cpp and the sample programs, which have no state of their own.
pub mod Annotation
pub mod Backtrace
pub mod Base
pub mod Base64
pub mod Exit
pub mod Ksyms
pub mod Output
pub mod Profile
pub mod Record
pub mod Save
pub mod Shlibs
pub mod Stack
pub mod Start
pub mod Stats
pub mod Stset
pub mod Trace
pub mod Tree
pub mod Words

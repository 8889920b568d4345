-- ===== src/Lib.antt =====
-- The UCB library (Unified C Base): a verification of its core components.
--
-- Common holds what the components share: tests and lists on native numbers, the laws of bit masks
-- (Common.Bits), and the outcomes of a call (Common.Outcome): a value, a fault (an access outside
-- live memory), an abort (UCB_VERIFY reports a user error through a function that does not return)
-- and a wait for a mutex that is never unlocked. Where there is no memory, src/ucb/memory.c reports
-- UCB_FATAL, which aborts the program, unless the user has set a handler that returns; then the
-- result is NULL. Realloc has these three ends, and the growth of the queue's array and of vectors
-- takes one. For the other allocations a Boolean argument says whether they give memory or, behind
-- such a handler, NULL.
--
-- Pqueue models the priority queue of src/ucb/container/pqueue.c. Its state is the array of buckets
-- sorted by priority (ucb_pqueue_bucket: priority, items, count), the capacity, the clone and free
-- functions and the mutex. Pqueue itself has ucb_pqueue_init_common, ucb_pqueue_search_bucket,
-- ucb_pqueue_push_node and ucb_pqueue_push; Pqueue.Take has pop, peek, size, empty, clear, fit and
-- release. How an allocation ends is an argument. The abstract queue (Pqueue.Contents) is
-- the list of items with their priorities. The search runs on fuel, one more than the number of
-- buckets, which BinarySearch shows to be enough. A queue has fewer than 2 ^ 31 buckets and 2 ^ 64
-- items, so no counter wraps; UCB_ASSERT is taken as in a release build, where it does nothing.
--
-- Utf8 models the UTF-8 part of src/ucb/unicode.c: ucb_uc_fetch2 to ucb_uc_fetch4,
-- ucb_uc_next_valid, ucb_uc_validate, ucb_uc_encode_codepoint and ucb_uc_num_cp. A text is the list
-- of its bytes; pointers into it are its suffixes. Loops run on fuel for the length of the text,
-- which is enough since each step takes at least a byte. Utf8.Scalar has the standard's table.
--
-- Buffer models src/ucb/buffer.c: memory, size, capacity, grow function, and static or heap
-- backing. Buffer has what may allocate, Buffer.Stack what only reads or shortens, and
-- Buffer.Memory realloc and memcpy, of which a write past the end is a fault. New bytes of an
-- allocation are arbitrary.
--
-- Path models src/ucb/path.c as a POSIX build compiles it: the components and caches of ucb_path,
-- path_parse with path_build_dir and path_parse_filename, path_compose_to and path_update. Path.Edit
-- has construction, queries, setters and appending, Path.Normalize path_normalize_lexical, and
-- Path.Parts parts, containment, parents and ancestors. A string is the list of its bytes, so that
-- aliasing, the capacity of strings and the allocator's failures do not show; the default style in
-- the configuration of the thread is an argument. Loops over segments run on fuel for the length of
-- the string; each takes at least a byte. Path.Segments and Path.Resolve say what segments are and
-- how a stack resolves them. Windows anchors, and the ordering of paths, are left out.
--
-- Encoder joins Utf8 and Buffer: ucb_uc_encode_codepoints of src/ucb/unicode.c gathers the bytes of
-- code points in a chunk and pushes it onto a buffer. UCB_UC_MAX_MULTI_LEN is a parameter, since its
-- header is generated; a write past the chunk is a fault.
--
-- Task models src/ucb/threads/task.c: the structure, its setters and checks, and a run as the calls
-- it makes of user code, whose results are a parameter.
--
-- Pool models src/ucb/threads/threadpool.c on top of Pqueue and Task. Pool itself has the critical
-- sections as functions: what ucb_threadpool_worker, ucb_threadpool_add_task,
-- ucb_threadpool_start_impl, ucb_threadpool_wait_all and ucb_threadpool_join do between taking the
-- lock and giving it back or waiting. Pool.System and Pool.Steps interleave them: a step is one
-- section, the run of one task or the join of one thread, in any order the mutex allows. Workers
-- wait on task_notify until a signal, a broadcast or a wake-up without a signal. One thread calls
-- start, wait_all and join, while any thread adds tasks and sets the default callback; memory for a
-- larger array of the queue suffices in the steps. Pool.Balance has the invariant, by counts of
-- where the workers stand. Left out are the handles of threads with their stack sizes and
-- priorities, ucb_threadpool_free and the failures of ucb_threadpool_new.
--
-- Vector models the template include/ucb/container/templates/vector_template.h, of which the vectors
-- in src/ucb/container/impl are instances, for any type of elements: elements is the array, as long
-- as the capacity, and lost says that it has been freed while data still points to it. How a
-- reallocation ends is an argument, and what a larger array holds beyond the old one another. The
-- array is read and written by load, store and memmove, which fault outside it. Vector.Search has
-- finding and sorted insertion by a comparison whose result r, an int, is kept as r + 2 ^ 31; the
-- search runs on fuel, one more than the size, which Vector.Finds shows to be enough. Left out are
-- sorting, foreach and the copying of elements. The vectors written by hand in vector_val.c,
-- vector_ptr.c and vector_generic.c are not built, and not modelled.
--
-- Envmap models src/ucb/envmap.c as a POSIX build compiles it, on the vectors of Vector: searching,
-- has, get, set, unset, append and prepend; Envmap.Environ has the map of the process's environment
-- (the entries of environ are an argument), the array for a child process, apply as the calls it
-- makes of ucb_env_set and ucb_env_unset, and copies. Freeing is left out.
--
-- Bytes models ucb_bytes_parse of src/ucb/units/bytes.c with the table BYTES_UNITS, the steps of
-- its scan as functions; strtod and the operations of the type double are parameters (Bytes.Double,
-- with the laws of Bytes.Printed.IsDouble, which hold of 53 bits that are rounded to the nearest),
-- and isalpha and tolower are those of the C locale.
--
-- Args models src/ucb/argparse.c: Args.Convert the converters, Args the defaults and the store of
-- destinations by address, Args.Parse finding and applying options, Args.Print where the printing
-- of help and of the version aborts, Args.Walk the loop of ucb_arg_parser_parse, and Args.Declare
-- ucb_arg_parser_add. strtoll and strtoull are modelled, strtof and strtod are parameters. A
-- malformed declaration, and bytes that are not UTF-8, abort. Parsing stops with an error, with
-- help or version, or with a counter that overflows; what the destinations hold then is not kept.
-- The texts of usage, help and version are left out.
--
-- The rest of strings and of Unicode, the wrappers of threads and mutexes, files and processes are
-- not modelled. Pointers that the functions verify not to be NULL are values here.
pub mod Common
pub mod Pqueue
pub mod Utf8
pub mod Buffer
pub mod Path
pub mod Encoder
pub mod Task
pub mod Pool
pub mod Vector
pub mod Envmap
pub mod Bytes
pub mod Args

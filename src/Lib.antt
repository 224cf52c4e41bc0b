-- ===== src/Lib.antt =====
-- A model of programs of the repository's problem sets, with the theorems that make them correct.
--
-- pset1, the debugging allocator (pset1/m61.cc, pset1/m61.hh): `m61_malloc`, `m61_calloc`, `m61_free`
-- and `m61_realloc` share the globals of the file. They are the record `M61.State.Heap`, which every
-- operation takes and gives back: the buffer's bytes, the map of active blocks, the map of free
-- blocks, the set of freed pointers, the statistics, and what was written to `cerr`. M61/Malloc,
-- M61/Free and M61/Realloc hold the operations, with one definition for each loop or phase of the
-- function, under the function's name; `M61.State.Outcome` says whether a call returns, aborts or
-- is undefined. M61/History runs a program's calls one after the other, with arbitrary stores to the
-- buffer between them. OrderedMap models `std::map` and `std::set` as lists in key order. M61/Blocks,
-- M61/Coalesce, M61/Invariant, M61/Preserve and M61/Separation carry the invariant.
-- `size_t` values are numbers below 2^64, and sums wrap where the source's can. The buffer's address
-- comes from `mmap`: it is the field `base`, and hypotheses say that it is a multiple of 16, not null,
-- and that the buffer fits below 2^64. `ALIGNMENT` is 16, as on x86-64. The second `curr_it--` in
-- `m61_free`, whose result is not used at the first free block, is taken to have no effect.
--
-- pset5, the shell: Shell/Lexer is the token iterator of pset5/helpers.cc and pset5/sh61.hh, and
-- Shell/Parser is `parse_line` of pset5/sh61.cc. A C string is the list of its bytes without the
-- terminator. The loop over tokens recurs on fuel; the length of the line and one is enough. The
-- parser takes the tokens' types and texts, and the variables, which outlive a line. Shell/Running is
-- `run_list` of pset5/sh61.cc with the shell's own part of `command::run`; the system calls and the
-- flag of the signal handler are the record `System`. A shell that forks goes on as the parent or as
-- the child, as `fork` answers. The loop recurs on fuel, a round for each command and one for the end.
-- Shell/Running/Meaning is the reference: the meaning of `&&`, `||`, `|` and `;` by recursion on the
-- parsed list, for a foreground list.
--
-- pset4 and pset6, the I/O library (pset4/io61.cc, the same file as pset6/io61.cc): Io61/Locks is the
-- range locks. The calls hold a mutex and so follow one another: a step of `Io61.Locks.Ledger.Reaches`
-- is one call of some thread, and keeps the list of the regions that threads hold, which the arrays
-- `nlocked` and `owner` stand for. The states that a waiting `io61_lock` finds when it wakes up are an
-- argument. A loop over chunks recurs on fuel; one more than the last byte of the region is enough. An
-- index past the arrays, or a count past `int`, ends a call with `out_of_range`.
--
-- Io61/Cache is the writing side of the cache: `io61_writec`, `io61_write` and `io61_flush` on the
-- record `Cached`. The system calls are the parameter `Kernel`; what they document is stated in
-- `IsSink` (bytes that `write` takes follow those before) and `IsPatient` (of some bytes it takes at
-- least one, but for finitely many interruptions). The flush loop recurs on fuel, the number of cached
-- bytes and of interruptions to come; the loop of `io61_write` on its number of bytes.
--
-- Io61/Reading is the reading side for files that cannot be mapped, `io61_read_cache`, `io61_readc`
-- and `io61_fill`, on the same record. `IsStream` says what `read` documents, and `IsPersistent` that
-- it answers with `EINTR` or `EAGAIN` finitely often, which bounds the fuel of the loop of
-- `io61_fill`. Mapped files, `io61_seek` and positioned reads and writes are not modelled.
--
-- pset3, the teaching operating system: WeensyOs/Memory, WeensyOs/Strings, WeensyOs/Numbers,
-- WeensyOs/Printing and WeensyOs/Console are its C library (pset3/lib.cc, pset3/lib.hh). Memory is a
-- function from addresses to bytes, and `WeensyOs.Strings.Spelling.Spells` says that it holds a text
-- with its terminator; `strtol`, `from_chars` and `vprintf`, which only read, take texts as lists. A
-- loop that only a terminator stops recurs on fuel, and the theorems on it say how much is enough.
-- `vprintf` gives the list of the calls of `putc`, which `vsnprintf` and the console printer take one
-- after the other. `rand`, the variadic wrappers and `error_printf` are not modelled.
--
-- WeensyOs/Kernel is the page allocator and the scheduler of the kernel (pset3/kernel.cc, with
-- pset3/k-hardware.cc). `Pages.Owners.Reaches` is any sequence of `kalloc`, `kfree`, and of the shares
-- that `fork` makes, with the list of the references held, while memory is written at any time. The
-- linker's `_kernel_end` is a parameter. `schedule` recurs on fuel, one round for each look at a
-- process; 16 are enough for the answer, which may be that it spins for ever. The clock stands still
-- while the kernel runs, and moves between the steps of `Scheduling.Turns.Passes`. The page-table
-- walk, and with it `fork`, `exit`, `kill`, `mmap` and the page-fault handler, are not modelled.
--
-- pset6, the bank transfers: Bank/Transfers is `transfer_thread` of pset6/ftxxfer.cc, run by any number
-- of threads at once. `Bank.Transfers.Step` is one call of one thread that the others can see, and
-- `Transfers.Ledger.Reaches` any interleaving of steps, with the ledger that the same transfers leave
-- one after the other. The locks are those of Io61/Locks: an account lies in one chunk of the file, and
-- its lock is granted while no other thread holds one in that chunk. The draws of accounts and amounts
-- are arguments, and amounts are not negative; balances, which have at most 7 digits, are numbers.
-- Bank/Records is the parsing and printing of a record of pset6/ftxhelpers.cc.
--
-- Not modelled: system calls of the host (fork, pipes, exec, the terminal, `mmap`), device setup, the
-- rest of the handed-out support code, test programs, and the problem sets whose source is not in the
-- repository.
pub mod Prelude
pub mod OrderedMap
pub mod M61
pub mod Shell
pub mod Io61
pub mod WeensyOs
pub mod Bank

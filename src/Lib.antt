-- ===== src/Lib.antt =====
-- ft_strace: a tracer of system calls for Linux on x86-64, in the manner of strace.
--
-- The program forks. The child stops itself and then runs the command; the parent seizes it with
-- ptrace, lets it go from stop to stop, and writes a line to stderr for each system call: its name
-- and arguments when the call begins, its output buffers and its result when it ends. Signals are
-- reported and passed on. When the child has ended, the tracer ends in the same way.
--
-- The parts, their files and the code that they follow:
--
-- Common: names of the standard library that the files share; Boolean tests, lists and signed
--   machine integers over the native numbers.
-- Table: include/strace_data.h. `ArgType` is `e_ARGTYPE`, `SysTable` is `t_SYS_TABLE`. Table/Sys64 and
--   Table/Sys32 hold the rows of SYS64_LIST and SYS32_LIST in the source's order, in three files each.
--   Table/Array is what the designated initialisers make of the rows: a later row replaces an
--   earlier one with its number, and an element without a row is null. Table/Laws and Table/Rows: an
--   array is a look-up in its rows, and the rows are well-formed.
-- Format: the conversions of fprintf.
-- Tracee: ft_strace.c, `read_tracee`, `print_quoted`, `print_bytes`, `print_string`, `print_argv`.
--   Each returns the bytes that it writes. Tracee/Quoted and Tracee/Collision: what can be read back
--   from a quoted buffer and what cannot. Tracee/Dumps: buffers and strings. Tracee/Argv and
--   Tracee/Cut: vectors that end in a null pointer and vectors that cannot be read so far.
-- Registers: include/user.h and `read_registers` of ft_strace.c. The union of the two register sets is
--   the bytes that the kernel wrote.
-- Syscall: `lookup_syscall`, `print_arg`, `struct pending_call`, `print_entry`, `finish_args`.
--   Syscall/Lookup is about the tables, Syscall/Line about the line that the two halves make up,
--   Syscall/Pending about what the first half leaves for the second, Syscall/Buffers and
--   Syscall/Numbers about single arguments.
-- Wait: the macros on status words and `wait_child`.
-- Trace: `trace`. `trace_round` is one iteration of the loop: from the variables (`TraceState`) and
--   the kernel's answers in it (`Round`) to the actions that it performs and to where it leads
--   (`Flow`). Trace/Stops sorts the stops, and Trace/Deliveries, Trace/Ends and Trace/Transcript are
--   about the signals, the return and the whole text of a trace, Trace/Result about a call's result.
--   Trace/Reach is the relation of the states that the loop can be in and Trace/Invariant what holds
--   there. Trace/Over is about the status at the end, Trace/Lines about the lines of a child that no
--   signal disturbs.
-- Session: `main`, `handler` and `handler_term`, from the operating system's answers (`System`) to the
--   effects in their order and the end of its code. Session/Course describes the parent's run as steps
--   that pass, fail or do not return, and an ending; Session/Attach and Session/Supervision compare
--   `main` with that. Session/Delivery is what a signal that the tracer raises does to it, with the
--   dispositions and the mask that it has set; Session/ExitStatus how the tracer ends; Session/Programs
--   what is forked and run; Session/Guards the test of the permissions. Session/Interrupts cuts a run
--   off at a signal to the tracer, and Session/Signals says what comes of it.
-- Examples: inputs, tests, and each theorem at a concrete input.
--
-- `main` runs `trace` on the answers of its own `System`; `trace` runs `read_registers` on the register
-- set of a round, and `print_entry` and `finish_args` on its memory; these look up the table and print
-- the arguments by the functions of Tracee.
--
-- Bounds and fuel. A machine word keeps its wrap-around: an address is reduced by `2 ^ 64`, `int32`
-- and `int64` read a word as signed. `digits` has fuel `suc n` for the digits of `n`, which each
-- round divides by the base and which a base of 2 or more brings to 0 in time. The loop of
-- `print_argv` has the 128 rounds of the source. The loops of `wait_child` and `trace` end by what
-- the kernel answers: they go over a list of answers, of any length, and a run whose answers are
-- used up is waiting.
--
-- Outside the model, and parameters of it: the answers of waitpid, ptrace, process_vm_readv, lstat,
-- fork and execvp, and the texts of sigabbrev_np and strerror. Memory does not change during one
-- stop, so that process_vm_readv is a function of the process, the address and the count; between
-- two stops it changes freely. A theorem on readable memory takes the kernel as it is: a read that
-- runs into unmapped memory returns the bytes before it, or fails if there are none. That is what
-- the kernel does and portfolio_audit/tests/test_trace_regressions.py asserts; the copy of the
-- manual page in docs/manpage/process_vm_readv says otherwise. Which signals end a process by
-- default, and the dispositions and the mask that the tracer is started with, are parameters too;
-- `signal` and `sigprocmask` succeed. `isprint` is that of the C locale, which the program never
-- leaves, and `%s` prints a null pointer as the C library does.
--
-- Not modelled: the text that perror adds for errno; failures of stderr; the enumerators of e_SYS64
-- and e_SYS32, each of which is the number of its row. Reads out of range, which have no meaning in
-- C, are told apart where that matters: one behind a table yields an entry of its own,
-- `beyond_table`; one of `arg` yields 0. The tutorials, the audit programs and the scripts of the
-- repository are not part of the tracer.
pub mod Common
pub mod Table
pub mod Format
pub mod Tracee
pub mod Registers
pub mod Syscall
pub mod Wait
pub mod Trace
pub mod Session
pub mod Examples

-- ===== src/Lib.antt =====
-- cdbg, a command line debugger for C on macOS and arm64.
--
-- The debugger keeps one structure, `struct cdbg` (include/debugger.h): the process, its state (idle, running or
-- stopped), the registers of the selected thread, a table of breakpoints and one of watchpoints. The commands
-- change it and the process by way of thin layers over Mach and ptrace. The development follows these layers:
--
--   Prelude       shared names, tests, lists, machine words and bit operations
--   Kernel        the calls of Mach, ptrace and the C library, as a parameter; Kernel/Toy is a small system for
--                 which the assumptions on them are proved
--   Memory        src/memory.c: cdbg_mem_read and cdbg_mem_write with the way round by ptrace
--   Breakpoint    src/breakpoint.c
--   Threads       src/threads.c
--   Regs          src/regs.c: the registers, the step to the caller's frame, and the registers by name (Names, SetGet)
--   Watchpoint    src/watchpoint.c: the debug registers
--   Table         the arrays of include/debugger.h with their counts, and the removal of an entry
--   Lineno        src/lineno.c: the lookups in the table of line entries
--   Macho         src/lineno.c and src/syms.c: the load commands and sections of a file
--   Objects       src/lineno.c and src/syms.c: the files that are looked at, and the calls for them (Host)
--   Dwarf         src/lineno.c: the readers of .debug_line, LEB128 numbers, Tables (directories and files), Units
--                 (parse_line_table), Load (dwarfdump or the section), and Program, the line number program;
--                 Matrix has the rows that instructions stand for, Machine their bytes
--   Syms          src/syms.c: the table of symbols and its lookups; Load reads it by nm or from a file
--   Slide         src/lineno.c and src/syms.c: the slide, by the regions of the task
--   Language      the source languages, in src/debugger.c
--   Types         the names of types in src/debugger.c and src/expr_eval.c
--   Values        scalars in the memory of the process, and values as texts (Text), in src/debugger.c
--   Info          src/debugger.c: what dwarfdump prints on variables: Locals (find_local_var), Structs
--                 (dwarf_lookup_struct), Shown (collect_show_vars); Printed makes the record Outside of them
--   Variables     addresses, members and elements of variables, in src/debugger.c
--   Expr          src/expr_eval.c: the values of expressions
--   Debugger      src/debugger.c and the wait of src/process.c: State (the structure), Control (cdbg_wait,
--                 cdbg_continue and their helpers), Watch (watchpoints on all threads), Stop (the report of a
--                 stop and the end of a process), Step (steps by source lines), Delete (the
--                 commands del and delwatch), Enter (break, watch and thread), Run (the start of a program),
--                 Assign (the command set), Target (the places that break and dis take), Backtrace, Session (the loop of commands, cdbg_repl)
--
-- A module named here holds the definitions, its child modules the proofs, and its Tests runs at fixed inputs.
-- A function keeps its name without the prefix cdbg_; cdbg_continue is continue_process, cdbg_mem_read is
-- mem_read, cmd_del is del, cdbg_repl is perform with one command at a time.
--
-- State. A function that changes the system takes it as a value of the kernel's type World and returns the new
-- one; a function that changes the debugger takes and returns a Cdbg. Results 0, 1 and -1 are true and false, or
-- ok, exited and failed; a result by a pointer is an Option. What a function only prints is left out. The
-- calls of the system are fields of the record Kernel and have no definition; what a theorem relies on is a
-- record of laws (VmLaws, SuspendLaws), which Kernel/Toy fills.
--
-- Numbers are natural numbers; where the source wraps around, so does the model (u8, u32, u64). Addresses are 64
-- bits wide.
--
-- Loops over an array are recursion on the list or on the count. The loop of cdbg_process_wait ends when waitpid
-- is not interrupted, so it has fuel: `rounds`. Without fuel the result is that of an interrupted call. Any number
-- above that of the interrupted calls is enough. The sort of del has as many rounds as it has elements,
-- and del all as many as there are entries. The steps by source lines end after 100000 iterations in the source
-- (CDBG_MAX_STEP_ITERATIONS), which is their fuel.
--
-- The parser of a line number program has a round for each byte of the unit, and each round takes one at least; so
-- do the loops over the tables of version 4. The loop over the units has a round for each byte of the section, which
-- is more than its units; that it need not come to an end is proved for every number of rounds. The walk over the
-- regions of a task has 2^64 rounds, since each region has a byte.
--
-- A file is the list of its bytes, and a pointer into it the bytes from there on; a read behind the end is undefined.
--
-- What the commands need from outside is handed in: the lvalue of the expression of watch (`locate`), whether the
-- language allows one (`allowed`), and the address of the entry, which resolve_entry_stop_addr finds. For
-- variables, what is found is a parameter (Outside) that Info reads off what dwarfdump prints; strtoul and strtol are
-- parameters as well. Behaviour that C leaves undefined is a result of its own in Dwarf, Variables and Expr; a sum
-- of lines wraps.
--
-- Not modelled: the two grammars, since bison and flex make the parser; posix_spawn and the search for a program;
-- open, fstat, mmap and popen, which the record Host stands for; the commands that only print, as list, print,
-- show, dis and help; the handler of SIGINT. The release of Mach ports and of memory is left out.
pub mod Prelude
pub mod Kernel
pub mod Info
pub mod Lineno
pub mod Macho
pub mod Objects
pub mod Syms
pub mod Slide
pub mod Dwarf
pub mod Types
pub mod Language
pub mod Values
pub mod Variables
pub mod Expr
pub mod Memory
pub mod Breakpoint
pub mod Threads
pub mod Regs
pub mod Watchpoint
pub mod Table
pub mod Debugger

-- ===== src/Lib.antt =====
-- The kernel of a small teaching operating system for x86, in C. A boot loader starts it with a
-- file system image in memory; it sets up the interrupt descriptor table, the interrupt
-- controllers, the page tables and the drivers, and serves programs through system calls. The
-- calls on descriptors go through a table of routines that the type of the file selects: regular
-- files and directories of the image, the clock, or the terminal, which the keyboard's interrupt
-- handler feeds and which writes to the text screen.
--
-- Which file models what, with paths from the repository's root:
--   Cstring    the string routines of student-distrib/lib.c
--   Screen     the text screen of student-distrib/lib.c: clear, putc, putc_terminal,
--              deletec_terminal, vertical_scroll, the cursor; Screen.Print has puts and printf
--   Pcb        the file array of student-distrib/pcb.h and the search for a free descriptor
--   Filesys    student-distrib/filesys.c: the state and init_filesys; Filesys.Dentry has the
--              lookups, Filesys.Data has read_data, Filesys.File and Filesys.Dir the drivers
--   Keyboard   student-distrib/key_driver.c: key_handler and the key buffer; Keyboard.Table has
--              key_array, Keyboard.Terminal the terminal's operations
--   Pic        student-distrib/i8259.c
--   Rtc        student-distrib/rtc_driver.c
--   Paging     student-distrib/paging_c.c
--   Idt        set_idt_entry and the filling of the table in student-distrib/kernel.c
--   Syscalls   student-distrib/sys_calls.c: read, write, open and close; Syscalls.Args has
--              getargs, vidmap and the two calls that always fail
--   Process    sys_execute_c and sys_halt_c of student-distrib/sys_calls.c: Process.Steps has the
--              runs, Process.Nested the stack of processes, Process.Resume the way back to the
--              parent, Process.Execute the start of a program, Process.Refuse its refusal,
--              Process.Returns the calls that always return
--   Programs   the programs of syscalls over a record of system calls, Os: Programs.Support is
--              ece391support.c, Programs.Files cat and ls, Programs.Grep grep, Programs.Console
--              the shell, counter, hello and testprint, Programs.Syserr the tests of the calls.
--              Programs.OnKernel fills Os with the calls of Syscalls, for cat and ls
--   Prelude    shared helpers: tests, fixed arrays, int32_t as integers, memory, bit operations
-- Functions and globals keep their names, up to antt's spelling: sys_read_c is sys_read,
-- get_pageTable_entry is get_page_table_entry, get_bigPage is get_big_page, and the fields N and D
-- of bblock_t are n_inodes and n_data_blocks. Each module's state is a record, and an operation
-- takes the record and returns the new one with its result.
--
-- Conventions. Memory is a function from addresses to bytes; a pointer is the memory that it leads
-- to, and a null pointer is `none`. uint32_t is a native number with the wrap-around written out;
-- int32_t results are ℤ, and the coordinates and modes that are `int`s are words of 32 bits in
-- two's complement. -1 is `failure`. What is sent to a port is kept as a trace; what a device
-- returns is an argument. cli and sti set a flag.
--
-- Loops. Loops with a bound in the code recurse on the rounds that are left. strlen, strcpy, puts,
-- printf and getargs recurse on 2 ^ 32 rounds, one for each address, and a call that does not end
-- within them is `none`. The inner loop of read_data has 1024 rounds, one for each word of an
-- inode. itoa has as many rounds as its value, and rtc_write has 8 for the bits of a byte. A read
-- of the terminal or of the clock waits for interrupts, which are a list: what comes between two
-- tests of the flag.
--
-- Taken for granted: buffers and local variables do not overlap the file system image, and strings
-- do not overlap the screen's memory; a write of a descriptor number outside the file array changes
-- nothing, and neither does the NUL that execute writes at file_name[33] after a first word of 33
-- characters or more; what lies behind the scan code table is not used. In Paging the addresses of
-- the two page tables are arguments, and so are the addresses of the assembly routines in Idt.
--
-- In Process the process control blocks are a function of their addresses, and the frames of 4 MB
-- one of their numbers; the frames, the kernel stacks and the image do not overlap. The stack of a
-- call of execute is an argument, for what its variables hold before they are written. The iret is
-- a result with the registers that it pops. The return statement of halt comes after the frame
-- pointer has been replaced: what its code reads for the status is an argument, a function of the
-- frame pointer. What exec_done in exceptions.S makes of the result is not modelled. A command of
-- 1024 characters or more, which strcpy would write behind the array `input`, and a program that is
-- longer than the rest of its page have no result. A run of a program is any sequence of calls that
-- have one, of changes of its own page and of keys; the buffer of a read is in that page, as
-- sys_read_c tests it for a null pointer only. In Programs a system call that other programs or the
-- assembly carry out is an argument: execute, and the call of an arbitrary number. The loops of the
-- programs have fuel: cat needs one round more than the file has bytes, and ls one more than the
-- directory has entries; a call of the loop over the lines in grep has 1026 rounds, and its buffer
-- 1025 places.
--
-- Not modelled: the dispatch of system calls, exceptions and interrupts, which is assembly; the
-- handlers of exceptions in C, which nothing calls; boot code, segment descriptors and the other
-- assembly; memset, memcpy and memmove, which are inline assembly; the kernel's tests; pingpong,
-- sigtest and the animation under fish, and the emulation of the calls on a host.
pub mod Cstring
pub mod Filesys
pub mod Idt
pub mod Keyboard
pub mod Paging
pub mod Pcb
pub mod Pic
pub mod Prelude
pub mod Process
pub mod Programs
pub mod Rtc
pub mod Screen
pub mod Syscalls

-- ===== src/Lib.antt =====
-- A small operating system: CPUs and a loader as threads that a timer keeps in step, a scheduler with
-- one queue per priority, an instruction interpreter with system calls, and paged virtual memory over
-- simulated devices. This library models these parts and states what they do. Paths are those of the
-- repository.
--
-- Parts and files
-- Pte       the macros of include/bitops.h and include/mm.h on 32-bit words, and init_pte,
--           pte_set_swap, pte_set_fpn of src/mm.c. Pte/Fields gives them as arithmetic,
--           Pte/Entries what they leave in an entry.
-- Memphy    src/mm-memphy.c and __swap_cp_page of src/mm.c: the record Memphy is struct
--           memphy_struct; MEMPHY_read is read, and so on. Memphy/Access is about bytes and the
--           cursor, Memphy/Frames about the free frames, Memphy/Copy about the copy of a frame,
--           Memphy/Shape about what no operation changes.
-- Queue     src/queue.c. Queue/Window is about the loops of dequeue, Queue/Refine about the queue as
--           a list of processes.
-- Sched     src/sched.c with MLQ_SCHED: the record Sched holds its static variables. Sched/Scan is
--           about the loops, Sched/Call about one call of get_mlq_proc, Sched/Progress about
--           sequences of calls, Sched/Waiting about how long a level waits, Sched/Start about the
--           state after init_scheduler. Sched/Single is the branch without MLQ_SCHED.
-- Vm        src/mm-vm.c, include/os-mm.h and the mapping routines of src/mm.c. Vm/Mapping is about
--           the frames taken, Vm/Entries about the entries that vmap_page_range sets, Vm/Limits
--           about inc_vma_limit with enough frames, Vm/Shape about all of its outcomes.
-- Libmem    __alloc, __free and their helpers in src/libmem.c (here alloc, free). Libmem/Regions is
--           about the search for a free region, Libmem/Alloc about a whole allocation,
--           Libmem/Layout about the regions of a process, Libmem/Tame about calls on any process.
-- Print     the routines of src/mm.c that print. Print/Table is about the page table.
-- Paging    the rest of src/libmem.c, from find_victim_page and pg_getpage to libread, libwrite and
--           free_pcb_memph (__read and __write are read and write). Paging/Victim is about the
--           page list, Paging/Pages about access and about a page brought in, Paging/Tame about what
--           access to any process leaves.
-- Timer     src/timer.c. Timer/System puts its thread and those that use it together, in any order of
--           their steps; Timer/Barrier is about the slots that they are in, Timer/Progress about
--           waiting, Timer/Rounds about a round of timer_routine.
-- Process   the types of include/common.h, and the machine that all processes share.
-- Killall   src/sys_killall.c. Killall/Lists is about the loops over queues, Killall/Result about the
--           whole call, Killall/Effects about what it may do to the scheduler, Killall/Guards about
--           what it may do to memory.
-- Syscall   src/syscall.c with src/syscall.tbl, src/libstd.c and src/sys_mem.c. Syscall/Memmap is
--           bytes written and read by memmap, Syscall/Tame about what memmap leaves.
-- Cpu       run of src/cpu.c. Cpu/Cases is about what an instruction does, in a few cases,
--           Cpu/Isolation about what it leaves alone, Cpu/Effects about what any instruction may do
--           to the scheduler, Cpu/Guards about what it may do to memory, Cpu/Kills about counters and
--           about killall, Cpu/Allocations about ALLOC and FREE.
-- Os        the turns of cpu_routine and ld_routine in src/os.c. Os/Quantum is about the time that a
--           process keeps a CPU, Os/Idle about a CPU without one, Os/Leaving about one that ends,
--           Os/Loading about the loader.
--           Os/Threads puts any number of CPUs and the loader together: Os/Threads/Calls is about the
--           instructions that they execute, Os/Threads/Placement and Os/Threads/Moves are about where
--           each process is, Os/Threads/Safety about all reachable worlds, Os/Threads/Presence about
--           processes that are lost, Os/Threads/Accounts about where every process is,
--           Os/Threads/Service about how long one waits, Os/Threads/Memory about regions and frames,
--           Os/Threads/Executed and Os/Threads/Program about the instructions of each process,
--           Os/Threads/Turns about turns as sequences of steps.
--           Os/Startup is what main sets up before it creates the threads, Os/Main puts it behind
--           the configuration, and Os/Main/Files is about a system that is written in files.
-- Loader    src/loader.c: files as words, numbers and line ends. Loader/RoundTrip is about files written
--           and loaded again.
-- Config    read_config of src/os.c, on files as in Loader. Config/RoundTrip is about files written and
--           read again.
-- Mem       src/mem.c and the routines of src/cpu.c for a build without paging. Mem/Address is about
--           the parts of an address, Mem/Access about instructions, Mem/Dump is dump.
-- Common    numbers, Boolean tests, lists, the status of a C routine, faults, and bit arithmetic.
--
-- How they interact: Sched keeps one Queue per level and calls enqueue and dequeue. Libmem calls Vm
-- for the area and its limit; Vm takes frames from Memphy and sets entries by Pte; Paging reads
-- entries by Pte, moves frames between two devices by Memphy, and reads the regions that Libmem
-- has named. Cpu calls Libmem, Paging and Syscall for a process; Syscall calls Vm, Memphy and
-- Killall, and Killall ends processes that it finds in the queues of Sched. Os calls Sched and Cpu
-- once in each slot, and Timer is what makes the slots.
--
-- How the code is read: state is passed from call to call. A linked list is the list of its nodes,
-- an array a function of the index. A C routine gives its status, ok for 0 and minus_one for -1,
-- with its out-parameters, given their old values, and the new state. A result none is undefined
-- behaviour: a null pointer followed or an access outside an array or a device. What malloc leaves
-- unset is a parameter of type Vm.Malloc. Processes are numbers, and prio gives their priority. A
-- routine that holds a lock is one step. In Os/Threads a call of put_proc or add_proc, which take the
-- lock twice, is one step, and so is an instruction. That is true to every order of the threads for
-- CALC, ALLOC and FREE, and for READ and WRITE but for a page swapped in; killall, memmap and
-- pg_getpage take no lock, and as one step stand for the orders in which no other thread uses the same
-- queues and lists meanwhile. Os/Threads/Calls has the conditions that leave the system calls out. A
-- process that has finished keeps its memory, as a number cannot dangle; in the code it is freed, and
-- the running list still points to it.
--
-- Bounds and fuel: entries and masks are words of 32 bits with their wrap-around written out;
-- sizes, addresses and counters are natural numbers, so an int that is negative or overflows is
-- outside the model, but for the cut of an address that is passed on as an int and for the number of
-- an area. So the size of ALLOC is below 2^31; the code takes any larger one for a negative int. The jumps to label
-- in get_mlq_proc run on fuel 3, since a call makes at most two jumps; the loop of MEMPHY_mv_csr
-- runs on fuel maxsz, since it stops there. The name that killall reads runs on the 100 places of
-- proc_name, and the loops over a queue on its size. time_left is the bit pattern of an int. The
-- number of CPUs and of turns is arbitrary.
--
-- Not modelled: src/paging.c, a separate main that the Makefile links without src/libstd.c and
-- src/libmem.c, whose routines run calls; the library of threads, so that the end of main in
-- src/os.c, which joins the threads, is a step of Timer/System only; messages, and the text of what is
-- printed beyond its values; how the C library cuts a text into words and numbers; tests for null
-- pointers that the start-up code rules out; the pointers that put_proc and add_proc store in the
-- process.
pub mod Common
pub mod Pte
pub mod Memphy
pub mod Queue
pub mod Sched
pub mod Vm
pub mod Libmem
pub mod Print
pub mod Paging
pub mod Timer
pub mod Process
pub mod Killall
pub mod Syscall
pub mod Cpu
pub mod Os
pub mod Loader
pub mod Mem
pub mod Config

-- ===== src/Lib.antt =====
-- A verification library for MyOS, a small operating system for the i386 written in C.
--
-- The kernel is one image: ker/ has the processes, memory, the devices and the descriptor tables,
-- fs/ reads FAT volumes through the disk driver, and include/ has the structures and the lists that
-- they share. A process that waits for a device sleeps in a wait queue until an interrupt handler
-- wakes it; the scheduler takes it off the ready queue and puts it back. The files that model the
-- parts are these; each function of the source is a definition of the same name in lower case.
--
-- - Sched: ker/proc.c and ker/schedule.c. `State` has the queue pointers and, as functions of the
--   index of a process, the fields of `struct proc`; `proc_ready`, `proc_block`, `pick_proc`,
--   `bill_process_time`, `round_robin` (RoundRobin), `schedule` and `wake_up_process` act on it. A
--   read or a write through NULL is the result `fault`, a walk that outlives its fuel is `spins`;
--   one round of fuel for each process in the queue is enough. The change of stacks is left out.
-- - Wait: include/list.h and include/wait.h, with `sleep_on` (`sleep_start` up to the return of
--   `schedule`, `sleep_end` after it) and `wake_up` of ker/schedule.c. A list head is its address.
-- - Kb: ker/kb.c and include/keymap.h. `Kb` is the buffer of scan codes with the lock flags and the
--   bytes that were sent to the controller; `kbd_int` is the interrupt, `kb_read` the reader.
-- - Mem.Holes: `Kmem_alloc`, `Kmem_free` and `mem_init` of ker/mem.c over the list of holes, with the
--   free list of hole entries and the interrupt flag.
-- - Mem.Pages: `kmalloc` and `kfree` of ker/mem.c over the words from `kmem_page` on; the list goes on
--   behind the table, where both functions can reach.
-- - Protect: ker/protect.c. Descriptors, selectors and gates as records of their fields, `trap_init`
--   and `prot_init` as loops over the tables. Addresses of symbols are arguments.
-- - Proc: `umap` of ker/proc.c.
-- - Slot: include/slot.h, the free lists of inodes, open files and PCI devices.
-- - Fs.Fat, Fs.Read, Fs.Open: fs/inode.c, fs/read.c and fs/open.c over a disk that is a function from
--   byte addresses to bytes. `block_data` gives the bytes of a sector; that `kmalloc` finds memory for
--   its buffer is assumed. `filp_read` takes fuel, one round for each byte wanted and one more.
-- - Fs.Super: fs/super.c. A boot sector is the bytes of its sector. A process that finds a super block
--   locked would sleep: that is a result, as are the panics.
-- - Fork: ker/fork.c, ker/exit.c and `proc_init` of ker/proc.c. `Procs` has the state of the
--   scheduler, the rest of each `struct proc`, the register frame on its kernel stack, the holes of
--   memory and the bytes of the user processes; the addresses of symbols are in `Image`.
-- - Irq: ker/irq.c. The state has what the mask ports give back and the list of the port writes.
-- - Fs.Block: fs/block.c over the page allocator; a `struct buf` is the four bytes of its pointer.
-- - Clock: ker/clock.c, with the scheduler's bill, the masks of Irq and the formats of Vsprintf. The
--   CMOS is a function of the byte that is written to its port.
-- - Pci: ker/pci.c. The machine behind the ports is a parameter, and what the scan relies on of it is
--   stated in Pci.Host. The loops count down the 32 devices, 8 functions and 6 registers.
-- - Cpu: ker/cpu.c. The registers that `cpuid` gives are a parameter; 50 rounds of fuel are enough to
--   move a string of 49 bytes.
-- - Partition: ker/partition.c, on the bytes of the first sector.
-- - Build: tools/build.c. One round of fuel for each byte of a file and one more copy it whole.
-- - Hd: ker/hd.c. `Hd` is the ring of requests; `do_read` and `hd_handlerp` give what they make the
--   drive do and whom they wake as a list of actions. `do_readwrite` gives the port writes.
--   Hd.Setup has what `hd_specify` and `hd_init` take from the data of the drive and of the BIOS.
-- - Console: ker/console.c. The screen is the list of its 4000 bytes.
-- - Vsprintf: ker/vsprintf.c. The digits of a number need ten rounds, since it is below 2 ^ 32.
-- - Prelude: Boolean tests, lists over the native numbers, machine words and bit fields.
--
-- Machine words are natural numbers with their wrap-around written out (`u8`, `u16`, `u32`, `sub32`).
-- `int` values that are never negative are natural numbers; where one would become negative the
-- result is `none`. Waiting for a controller and messages on the screen have no effect on the states
-- and are left out. Interrupts are explicit: a handler is a function that a sequence of events calls.
--
-- Not modelled: the assembly of boot/, head/ and ker/sys.S, the instructions of include/system.h that
-- reach the ports, the dialogues with the keyboard controller and with the drive at start-up,
-- ker/trap.c and ker/panic.c, which print and stop, and init/main.c, which calls the parts in order.
pub mod Prelude
pub mod Sched
pub mod Wait
pub mod Kb
pub mod Mem
pub mod Protect
pub mod Proc
pub mod Slot
pub mod Fs
pub mod Hd
pub mod Console
pub mod Vsprintf
pub mod Fork
pub mod Irq
pub mod Clock
pub mod Cpu
pub mod Partition
pub mod Build
pub mod Pci

-- ===== src/Lib.antt =====
-- JeffOS, a small message-passing kernel with user-level servers: the parts of the kernel that keep
-- its resources, as functions on explicit state.
--
-- The program. `kernel/` is the kernel: a bitmap of physical pages and page tables (mem.c), block
-- allocators over them (memory.c, alloc.c), a table of resource ids (resource.c), queues (queue.c),
-- semaphores (sem.c), message ports (port.c), tasks and their scheduler (task.c), objects and shared
-- memory (object.c, shm.c), and the system calls that reach them (syscall.c, int.c). `lib/` is the C
-- library of the servers in `srv/`, which talk to each other through the ports. Every kernel structure
-- lives in pages of mem.c, mostly in blocks of memory.c; ids that leave the kernel are entries of
-- resource.c.
--
-- The files.
--   Base       the shared names; lists measured by native numbers, bits of a byte, masks, counting.
--   Resource   kernel/resource.c. `Table` is the file's three static variables, `rmap` a list of
--              entries whose union is one word. Valid holds the invariant (the chain of unused
--              entries), Ops the effect of each operation on the live entries, Init `rsrc_init`,
--              Capacity the count of ids, History sequences of calls against a finite map.
--   Status     kernel/status.h, and `Outcome`: a value, or a kernel that halts (kernel/helper.c).
--   Pages      kernel/mem.c. Bitmap is `PMAT` as a list of bytes; Search the loop that three routines
--              make over the bitmap and the two page tables; Tables `kmap_LowPage`,
--              `kmap_KernelPage`, `kunmap_Page`, `aspace_map` on an `Aspace` (kernel/task.h); Alloc
--              `MmAllocPagesRaw` and `MmFreePages` on a `Memory`, the bitmap and one address space;
--              Space `brk` and `MmCreatePageTable`.
--   KMem       kernel/memory.c over Pages. `Heap` is `km_map`, the first word of every block and the
--              memory. Sizes is `size_map`; Class the invariant of one class of blocks, Take, Shave
--              and Give what `kmalloc` and `kfree` do to it; Global the seven classes together,
--              Disjoint the bytes of their blocks, Init `memory_init`.
--   Queue      kernel/queue.c over KMem. `State` is one queue, the node at each address and the heap; a
--              node and the first word that the allocator writes to a freed block are two views of the
--              same bytes, of which one is in use at a time. Links and Ends are the chain of nodes, Ops
--              the calls with the heap, History sequences of them, Cut `queue_removeTail`.
--   Sched      kernel/task.c. `Machine` is its variables, the tasks, processes and address spaces by their
--              addresses, the kernel's memory and the resource table. Dead is what the clean-up leaves of
--              the task list, Switch and Calm `PsSwitchTask`, Preempt `PsPreemptTask`, Listed the list, Timer the
--              tick, Reclaim the pages of a process. A task's registers are left out, and the switch of
--              the processor is the new value of `CurrentTask`.
--   Kernel     what the system calls see: `Kernel` is the machine of Sched, the heap of KMem and the
--              structures that live in its blocks, each kind in a store of its own by address.
--   Semaphore  kernel/sem.c. Fifo is a semaphore of credits and waiting tasks, and when the kernel's
--              stands for one; Acquire, Sleep and Release are the two operations against it.
--   Port       kernel/port.c. A port, its messages and their bytes are in `Kernel`; the header that a
--              task hands over is a `MsgHdr`. Chain is the queue of messages, Copy the loops over the
--              bytes, Body, Deliver, Target and Send `port_send`, Take and Recv `port_recv`, Slave `port_option`.
--              `port_recv` that finds no message ends `asleep`: when the task runs again it goes on
--              with `recv_loop`.
--   Shared     kernel/shm.c, with the part of `ObCreateObject` that it uses. Object is the handle, Attach
--              `SmAttachSeg`.
--   Create     `PsCreateNewTask` and `PsCreateProcess` of kernel/task.c, with the objects that they make
--              (kernel/object.c); Stack is the search for the place of the stack.
--   Syscalls   `syscall22` of kernel/int.c, `kinit_syscall` of kernel/kinit.c and kernel/syscall.c. A
--              `Handler` is an entry of `SysCallTable`; `Context` is what a call reads besides the
--              state. Table is which number reaches which handler, Stubs lib/syscall.c.
--   Interrupts kernel/int.c and the mask bytes of kernel/i386.c, with the calls of kernel/syscall.c on
--              interrupts. Mask is the 16 lines, Dispatch `irq_dispatch`.
--   Start      kernel/kinit.c, `kinit_page`; Reserved is the pages that it sets aside.
--   Strings    lib/string.c on a function from addresses to bytes. Copy and Duplicate are the routines
--              that write, Compare those that read.
--   Format     lib/snprintf.c on the same memory, with the arguments as a list of words. Bounds is where
--              it writes.
--   Namer      srv/namer/namer.c on the memory of Strings; Find is the look-up, Entry what one more entry
--              does to it, Register `port_register`.
--   Console    the lines of srv/console/console.c by their addresses. Rows is the chain of a pane, Paint
--              the screen, Text the characters of a line, Scroll `addline`, Shown both together.
--   Chunks     kernel/alloc.c. `Lists` is its variables, the chunk at each address and the kernel's memory.
--              Fit is `GetChunk`, Endless the loop of `MergeChunkIntoFreeList`.
--   Objects    kernel/object.c without `ObCreateObject`, whose part for shared memory is in Shared. `Process` is the handles of the current process
--              (kernel/task.h) and the objects; Handles is what opening does.
--
-- Conventions. A C integer of 32 bits is a native number with its wrap-around written where the code
-- can reach it; a pointer is a number, NULL is 0. Messages to the console are left out. A read
-- outside an array gives 0 and a write outside it does nothing: the theorems state that the index is
-- within, but for an unmapped address in Pages.Alloc.Freed. The reads of kernel memory through a NULL pointer are not followed.
--
-- Bounds and fuel. The search of Pages.Search runs on fuel, one more than its limit: each round
-- moves on by at least one entry. The loops of `PsSwitchTask` and `PsPreemptTask`, which the code does
-- not bound, run on 1024 rounds, once round the list.
-- `va_snprintf` runs on fuel above the size of its buffer, since each round takes some of it.
-- `strcpy`, `strcmp` and `strlen` run on fuel above the length of the string, and
-- the name server gives them 32, which is more than a name has bytes;
-- the loops of Chunks over the two lists on fuel above the length of the list. All other loops are recursions on the rounds that are left.
--
-- Not modelled: the rest of the start and the descriptor tables (kernel/main.c, kinit.c, i386.c,
-- jump.S), the debugger and the trace (kernel/debug.c, ktrace.c), the boot sector and the image builder
-- (boot/, util/), the third-party allocator of the C library (lib/malloc.c, free.c, realloc.c) and the
-- network driver (srv/ne2000/), which are assembly, device and file I/O or code of others; the cases of
-- `ObCreateObject` of object.c that nothing calls, the fork of `ScCreateThread` that is not finished,
-- the rest of lib/, and the servers but for the name server and the lines of the console: `wipeline`
-- writes over the links of the line that it clears, and `init` and `clr` call it.
mod Base
pub mod Resource
pub mod Pages
pub mod Status
pub mod KMem
pub mod Queue
pub mod Sched
pub mod Strings
pub mod Chunks
pub mod Objects
pub mod Kernel
pub mod Semaphore
pub mod Port
pub mod Format
pub mod Start
pub mod Interrupts
pub mod Shared
pub mod Create
pub mod Syscalls
pub mod Namer
pub mod Console

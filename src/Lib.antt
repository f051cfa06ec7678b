-- ===== src/Lib.antt =====
-- NXOS is a small operating system kernel in C. This library models parts of its core, each with
-- the theorems that make it correct. A component is a file of this directory with child modules
-- for its lemmas; its Tests module runs it on concrete data.
--
-- Parts:
-- * Vmnode and Vmspace are src/mm/vmspace.c. Vmnode has the list of areas of an address space
--   (VmspaceInsertNode, VmspaceMergeNode, VmspaceSplitNode, VmspaceFindNode,
--   VmspaceCheckAddrCollisions, GetAddrFromMapArea), Vmspace the operations on a whole space that
--   call them (NX_VmspaceMap, NX_VmspaceMapWithPhy, NX_VmspaceUnmap, NX_VmspaceUpdateHeap,
--   NX_VmspaceExit, NX_VmspaceResizeImage, NX_VmspaceVirToPhy). The page tables of the
--   architecture are the parameter MmuOps, of which nothing is assumed.
-- * ExposedObject is src/kernel/exobj.c, the table of objects that a process names by slots. The
--   answers of close handlers are a parameter, and the calls made are part of a result.
-- * Semaphore is src/sched/semaphore.c, Spin is src/sched/spin.c and Mutex is src/sched/mutex.c,
--   which is built on Spin. Semaphore.Threads and Mutex.Exclusion let any number of threads call
--   them in any order, one critical section at a time.
-- * IoQueue is src/io/ioqueue.c, a ring of bytes counted by two semaphores and guarded by a
--   third, built on Semaphore.
-- * ThreadId is src/sched/thread_id.c, the bitmap of thread numbers.
-- * Time is src/time/time.c, the calendar and the step of the clock.
-- * Smp is src/sched/smp.c, the ready lists of a processor core, and Sched is src/sched/sched.c
--   with the part of src/sched/thread.c that moves threads: making a thread ready, blocking,
--   waking, ending, the pending list that cores share, and the switch to the next thread.
--   Sched.System lets any core call any of them in any order, each call as a whole.
-- * Hub is src/ipc/hub/hub.c, the channels on which client threads call a server thread, built on
--   Semaphore; Hub.Names is the list of all hubs, and Hub.Translate the mapping of a client's
--   memory for the server, on an interface of the two address spaces. A client's wait for the
--   answer is a wait on the semaphore of its channel.
-- * Timer is src/time/timer.c, the list of running timers in the order of their timeouts. The
--   answers of handlers are a parameter.
-- * Env is src/process/env.c, lists of arguments as lines.
-- * Irq is src/io/irq.c, the table of interrupt lines and their actions.
-- * DelayIrq is src/io/delay_irq.c, the queues of work that interrupt handlers put off.
-- * Clock is src/time/clock.c, the tick that drives Time, Timer and Sched through DelayIrq.
-- * Buddy is src/mm/buddy.c, the free blocks of physical pages, with src/mm/buddy_common.h and
--   NX_FLS of src/include/base/bitops.h; Buddy.Create is NX_BuddyCreate on a machine of 64 bits,
--   and Buddy.Zones is src/mm/page.c.
-- * PageCache is src/mm/page_cache.c, the spans of pages kept for reuse, on the interface PageOps
--   of a page allocator, and HeapCache is src/mm/heap_cache.c, the size classes and objects of
--   the kernel heap, on the interface SpanOps of such a cache.
-- * Memory is src/utils/memory.c, on a memory of bytes, and Strings is src/utils/string.c with
--   src/utils/ctype.c, on the bytes of the objects that pointers point into.
-- * Base has what they share: error codes (src/include/base/error.h), 64-bit words and the page
--   macros (src/include/base/page.h), lists indexed by native numbers and Boolean tests.
--
-- Pointers: a pointer that may be NX_NULL is an option, a node or object that C names by its
-- address is given by its place in the list. A failed NX_ASSERT, or the use of a freed node, is
-- the outer none of a result. Whether NX_MemAlloc finds storage is an argument. A critical
-- section is one step; the spin locks around them and the interrupt level are not represented. A
-- call that takes several locks one after the other, as NX_SchedYield, NX_SchedExit and
-- GetFreeChannel do, is one step too: what another core does between its critical sections is not
-- represented. Addresses and sizes are 64-bit words that wrap; the year and the numbers of the
-- calendar are taken below the bounds that each theorem names.
--
-- Loops are structural recursion on a list, or recursion on fuel: the search of ThreadId has as
-- much fuel as there are numbers, which is enough for a search that goes round once, and the loop
-- of MakeWeekDay has one round more than it can need, as each round adds 7 to a number that
-- starts above the negative of the fuel. PageMerge has as many rounds as there are orders, and
-- the loop of NX_BuddyCreate as many as there are pages, as each takes one at least. A call that
-- waits is modelled a round at a time, and says when it blocks or yields.
--
-- Not modelled: architectures and platforms, drivers, boot and test programs; printing. The file
-- systems (src/fs) are ported from another project, as their headers say, and are not modelled.
-- The life of processes, their snapshots and images, and the list of devices are not modelled
-- here, and of the modelled files the creation and destruction of threads, sleeping and the
-- termination of another thread, the unmapping of a client's memory by a hub, NX_VmspaceRead and
-- NX_VmspaceWrite, the allocation round an I/O queue, NX_SpinLockIRQ and NX_SpinUnlockIRQ, and
-- the reading of the clock device are left out. Of the switch between threads, the change of page
-- tables with its assertions is left out.
pub mod Base
pub mod Buddy
pub mod Clock
pub mod DelayIrq
pub mod Env
pub mod ExposedObject
pub mod HeapCache
pub mod Hub
pub mod IoQueue
pub mod Irq
pub mod Memory
pub mod Mutex
pub mod PageCache
pub mod Sched
pub mod Semaphore
pub mod Smp
pub mod Spin
pub mod Strings
pub mod ThreadId
pub mod Time
pub mod Timer
pub mod Vmnode
pub mod Vmspace

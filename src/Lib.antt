-- ===== src/Lib.antt =====
-- AlephOS, an x86-64 kernel in C: a model of its memory management,
-- its processes, its loader, its terminals, its IP packets and its resolver.
--
-- The program. `kmain` of kernel/src/main.c initialises the parts in turn. Physical pages are
-- handed out by kernel/src/mm/pmm.c from a bitmap over the memory map of the boot loader; the heap
-- (kernel/src/mm/heap.c) takes its pages there. Processes
-- (kernel/src/core/process.c) take a stack from the page allocator and their structure from the
-- heap; the timer's interrupt calls the scheduler. The display (kernel/src/graphics/display.c)
-- draws on the framebuffer of the boot loader. Terminals (kernel/src/core/drivers/tty/tty.c) keep
-- a cursor and two buffers, clear and scroll the framebuffer and reach the console or the serial
-- port by callbacks; pipes (kernel/src/core/drivers/tty/pipe.c) are a ring in a block of the heap.
--
-- Correspondence. Each file names the source that it models, and a definition keeps the name of
-- the C function less the prefix of its component:
-- - Mm/Pmm.antt: kernel/src/mm/pmm.c. The static variables are the record `Pmm`, every
--   `pmm_*` function a function on it; addresses are numbers, NULL is `none`.
-- - Mm/Heap.antt and Mm/Heap/Calls.antt: kernel/src/mm/heap.c. The headers of the blocks are a
--   function of the address; the page allocator and the page tables are the interface `Pages`.
-- - Mm/Vmm.antt: kernel/src/mm/vmm.c, less `vmm_init`. An entry is a function of its table's
--   physical address and of its index, beside the state of pmm.c.
-- - Graphics/Display.antt: `draw_pixel`, `draw_rect` and `clear_screen` of
--   kernel/src/graphics/display.c. The framebuffer's memory is a list of 32-bit words.
-- - Tty/Pipe.antt: kernel/src/core/drivers/tty/pipe.c. A call that waits for another process is
--   an outcome that holds what is left to do. The calls of several processes exclude each other
--   except at a wait, which the code takes no lock for.
-- - Tty/CharRing.antt, Tty/Terminal.antt and Tty/Devices.antt: kernel/src/core/drivers/tty/tty.c, its
--   buffers, its output and input, and its table of devices. A callback is a function on the
--   machine, which is the framebuffer beside a world that is a type parameter.
-- - Core/Process.antt and Core/Process/Table.antt: kernel/src/core/process.c, its scheduler, and
--   the creation and the end of a process. The structures are a function of the address. The
--   call of `context_switch`, which is assembly, is what `process_switch` returns. The saved
--   state of a new process is written far behind the page of its stack; what that does to a
--   structure which lies there is the parameter `junk`.
-- - Core/Elf.antt and Core/Elf/Loading.antt: kernel/src/core/elf.c. The file is in memory, and the
--   structures are read there. The pages that are mapped are kept beside memory: a write to
--   another page faults. What the mapping itself writes is the parameter `touch`. The file is
--   taken to be readable.
-- - Core/Ip.antt and Core/Ip/Packets.antt: kernel/src/core/drivers/net/ip.c. The tables are lists; a
--   packet lies in memory. The second loop of the checksum has three rounds, which are enough.
-- - Core/Rtc.antt: kernel/src/core/drivers/rtc/rtc.c. The registers are a function of their
--   index.
-- - Net/Dns.antt: kernel/src/net/dns.c without the sockets. Every loop over a name has one round
--   more than the bytes there are, which is enough.
-- - Utils/Mem.antt: kernel/src/utils/mem.c. Memory is a function from addresses to bytes.
-- The children of each module hold what is shown of it; Prelude, Bits, Circular and Allocator
-- are shared. `Allocator` stands for malloc and free of kernel/src/utils/mem.c where pipes, devices,
-- processes and packets call them: two functions on a state, without laws.
--
-- Integers. A machine integer is a native natural number below its bound, and each operation
-- that can wrap is written with its reduction (`u32`, `u64`, `sub32`, `sub64`).
--
-- Loops. A loop with a bound is a recursion on the rounds that are left. The loop of `tty_write`
-- has as fuel one more than the characters given; each round takes at least one, so it is enough.
-- A walk along the ready queue has its fuel as an argument: the length of the queue and two more
-- rounds are enough. So have the walks along the heap's blocks: as many rounds as the heap has
-- bytes are enough.
--
-- Not modelled: the boot loader and its protocol, inline assembly, and port and memory-mapped
-- input and output; of the kernel's own code, the parts that no file above names.
pub mod Prelude
pub mod Bits
pub mod Allocator
pub mod Circular
pub mod Core
pub mod Graphics
pub mod Mm
pub mod Net
pub mod Tty
pub mod Utils

-- ===== src/Lib.antt =====
-- Choco OS is a hobby x86_64 kernel in C. This library models the parts of it that carry its
-- logic and proves what makes them correct. The bootloader (limine) hands over the memory map;
-- the page allocator (kernel/src/pmm.c) takes the memory, the kernel heap (kernel/src/heap.c)
-- claims one large run of pages from it, and the scheduler, the filesystem and the programs
-- allocate from the heap. Interrupts feed the keyboard's event ring and the scheduler; a thread
-- feeds the network stack.
-- Conventions. A pointer is its address, 0 for NULL, and what it points to is a total map from
-- addresses, since C reads whatever lies there; a word of w bits wraps with % 2 ^ w. Interrupts
-- are off in every operation that is modelled as one step, and there is one core. A loop is
-- structural recursion on its number of rounds where the code bounds it, and else recursion on
-- fuel with `none` for fuel that is used up; each theorem about such a loop says how much fuel is
-- enough and that the loop then ends. Code that a component calls and another models (malloc for
-- the scheduler and the filesystem) is an argument or the addresses it returned.
-- Which file models what:
-- * Base, Base/Tests, Base/Lists, Base/Ints, Base/Text: the names that the modules share, Boolean
--   tests, lists with native indices, the integers that C gives as an int, and the codes of
--   string literals.
-- * Heap (kernel/src/heap.c): Block and the block list, malloc, calloc, realloc, free, heap_init.
--   `find_fit` walks with one round for each header that fits the region, which Heap/Malloc shows
--   to be enough. Heap/Chain says what a well-formed list is, Heap/Inv the invariant IsHeap,
--   Heap/Take and Heap/Merge what a split and a merge do, Heap/Freed what the heap is after a
--   merge, Heap/Malloc, Heap/Spec and Heap/Free what the calls do. Payload bytes are the
--   clients'; heap_lock is the convention above; the printed self test is left out.
-- * Pmm (kernel/src/pmm.c): the bitmap of pages, pmm_init, pmm_alloc_pages, pmm_free_pages.
--   Pmm/Bits is about its bits, Pmm/Search about runs of free pages, Pmm/Alloc and Pmm/Init about
--   the operations. The loops over an address range compare 64-bit words as the code does; fuel
--   of more than a range's pages is enough. The bytes of the bitmap and the words that an
--   allocation clears are two maps, so a run over the bitmap's own pages is not seen.
-- * Sched (kernel/src/sched.c): the ring of threads, thread_create, sched_start, sched_preempt,
--   sched_tick, thread_exit, thread_sleep_ms. A function that ends in a context switch returns
--   the stack pointer to go on with. Sched/Ring is about the ring, Sched/Wake, Sched/Reap and
--   Sched/Pick about the three loops of sched_preempt, Sched/Switch about the invariant IsSched,
--   Sched/Preempt and Sched/Create about the whole. Fuel is more than the number of threads.
--   Names, the frame that thread_create writes on the new stack and the printed list are left
--   out, next_id is not bounded, and fxsave and fxrstor are read as copies of 512 bytes.
-- * Keyboard (kernel/src/keyboard.c): the scancode decoder and the event ring, with the tables in
--   Keyboard/Table; Keyboard/Queue is the ring as a queue, Keyboard/Decode the letters.
--   Keyboard/Wait is kbd_wait_event, on the list of what arrives between two polls, of which each
--   poll takes one. Commands to the controller and kbd_getchar are left out.
-- * Memory (kernel/src/gcc_utils.c), CString (kernel/src/string.c), Kprintf
--   (kernel/src/kprintf.c): bytes, strings and formatted output. Memory/Copy and Memory/Compare,
--   CString/Length, CString/Order, CString/Copying and CString/Number, Kprintf/Stream,
--   Kprintf/Format and Kprintf/Number hold the proofs. strdup, and the wrappers that print a
--   buffer, are left out; variadic arguments are a list. A width is not bounded, where C has an
--   int: Kprintf/Format is about formats that spell no larger number. The value of strtol wraps
--   where C leaves the overflow of a long undefined.
-- * Vfs (kernel/src/vfs.c): nodes, file writes, directory search, creation and removal;
--   Vfs/Buffer, Vfs/Write, Vfs/Tree. The growth of a capacity doubles at most 63 times, which
--   reaches 2^63. Vfs/Path is path walking, vfs_mkdirs and vfs_node_path, with Vfs/Path/Names
--   about names, Vfs/Path/Resolve about a walk that goes down and Vfs/Path/RoundTrip about
--   printed paths; a walk takes one round for each component, so the length of the path is enough
--   fuel.
-- * Net (kernel/src/net.c): the checksum, the ARP cache, sending, and the handlers of incoming
--   frames; Net/Checksum, Net/Arp, Net/Udp, Net/Frame. Net/Address is the dotted notation of
--   addresses. The carry is folded at most 4 times. What comes of waiting for an ARP reply is an
--   argument. Net/Dhcp is the DHCP client with ping, where a wait is the list of the states in
--   which the code finds the stack when it polls; Net/Dhcp/Options is about the options of a
--   message. Net/Resolve is net_resolve, with the query and the walk over a reply in Net/Dns,
--   where the wait is the list of what the receiving thread does between two polls, one for each
--   poll before the deadline; Net/Dns/Reply and Net/Dns/Answers are about a reply,
--   Net/Resolve/Answered about the whole.
-- * LlmCommon (kernel/src/llm_common.c): the vocabulary search and the filter of printed text;
--   LlmCommon/Lookup, LlmCommon/Filter. Its heapsort has LlmCommon/Compare, LlmCommon/Swap,
--   LlmCommon/Sift and LlmCommon/Sort; a sift takes at most one round for each element. The
--   sampler works on floating-point numbers and is left out.
-- * Vmm (kernel/src/vmm.c): the four levels of page tables on a memory of words; Vmm/Bits,
--   Vmm/Tables (well-formed tables), Vmm/Walk (one walk), Vmm/Mapping (map, unmap and lookup).
--   The pages that pmm_alloc_page returns are a list.
-- * Shell (kernel/src/shell.c): the line editor, the history, the splitting of a line into words
--   and the search of the command; Shell/Editor, Shell/History, Shell/Words. Most commands print,
--   and are left out.
-- * Initrd (kernel/src/initrd.c): the tar archive read into the file system and the model files;
--   Initrd/Offsets. The loop has one round for each 512 bytes of the archive, which
--   Initrd/Offsets shows to be enough.
-- * Rtc (kernel/src/rtc.c): what a read of the clock gives is a function of the number of the
--   read and of the register, so it may change while the wait goes on; the wait takes fuel, of
--   which one more than the reads that find an update is enough; Rtc/Fields.
-- * Pci (kernel/src/pci.c): configuration space as a function of the address, and the search of a
--   device; Pci/Search.
-- * Term (kernel/src/term.c): the terminal, with what it asks of the framebuffer and of the
--   serial port as a list of calls; Term/Bounds, Term/Printing, Term/Reach. A tab prints at most
--   4 spaces.
-- * Snake (kernel/src/snake.c): the game but for its drawing; Snake/Grid is about cells,
--   Snake/Game about the invariant, Snake/Loops about the loops of an update, Snake/Motion about
--   a whole one. malloc, realloc, the keys, the ticks and the size of the framebuffer are
--   parameters.
-- * Tests and its children state the theorems at concrete inputs that meet their hypotheses.
-- Not modelled: the inference engines (kernel/src/llm.c, kernel/src/qwen.c,
-- kernel/src/llm_math.c), which compute on floating-point numbers; the chat, pong, its helpers in
-- kernel/src/lib.c and the commands of the shell; the drivers for ports, the network card and the
-- screen, and the descriptor tables, which are mostly device input and output or assembly.
pub mod Base
pub mod CString
pub mod Heap
pub mod Initrd
pub mod Keyboard
pub mod Kprintf
pub mod LlmCommon
pub mod Memory
pub mod Net
pub mod Pci
pub mod Pmm
pub mod Rtc
pub mod Sched
pub mod Shell
pub mod Snake
pub mod Term
pub mod Tests
pub mod Vfs
pub mod Vmm

-- ===== src/Lib.antt =====
-- BOKE-OS: a kernel for x86-64 with its user programs.
--
-- The kernel (Kernel/) boots from an image that the module packer of Toolchain/ builds: the loader
-- copies the user module out of it. A memory manager hands out blocks to the scheduler, to
-- processes and to pipes; the build chooses one of two, the buddy manager or the bitmap. The
-- scheduler keeps rings of processes, one for each priority, and switches at every tick of the
-- timer; processes are created and killed through its queues. Semaphores block and revive
-- processes, and pipes use semaphores between a reader and a writer. The video driver prints what
-- the calls of the user programs (Userland/SampleCodeModule/) pass to the kernel.
--
-- Which file models what:
-- - Memory.Buddy: Kernel/memory_manager/mem_buddy.c. The nodes of the array are a tree, and what
--   their storage holds where the tree has no node is an argument of `malloc`: nothing in the code
--   keeps it apart from the blocks. `malloc_rec` runs on fuel, a unit for each level: every level
--   halves the size.
-- - Memory.Bitmap: Kernel/memory_manager/mem_bitmap.c. The map is a function from pages to bytes.
--   A loop over the map has the pages that are left as its rounds; a walk that would leave the map
--   is a fault.
-- - Queue: Kernel/circular_list.c, a ring as the list of its nodes from the current one on, as the
--   other parts use it; Queue.Pointers has the calls on the pointers. free_queue has the rounds of
--   its loop as fuel.
-- - Kernel: the state that the parts share, of Kernel/basicScheduler.c, Kernel/process.c and
--   Kernel/semaphore.c, over any memory manager.
-- - Scheduler: Kernel/basicScheduler.c: the searches, the priorities, blocking, the start and
--   switch_context. The search of a ring runs on fuel; out of fuel is a search that has not ended.
-- - Process: Kernel/process.c: create and kill; Orphans and Killed have the theorems on the end of
--   a process.
-- - Semaphore: Kernel/semaphore.c and Kernel/asm/semaphores.asm.
-- - Pipe: Kernel/pipe.c. A transfer that waits for a semaphore is suspended.
-- - Strings: Kernel/lib.c on a memory of bytes. A loop that looks for a terminator runs on fuel.
-- - Console: Kernel/naiveConsole.c: uint_to_base, with 64 rounds for the 64 bits of a number, and
--   the clock.
-- - Keyboard: Kernel/keyboard_buffer.c and Kernel/drivers/keyboard_driver.c with the table of
--   Kernel/drivers/include/ScanCodes.h, and the rounds of the read from the keyboard in
--   Kernel/syscalls.c. What get_key returns is an argument, and the calls that leave the keyboard
--   are listed.
-- - Interrupts: Kernel/idtLoader.c (Vectors), Kernel/irqDispatcher.c (Calls, Dispatch),
--   Kernel/time.c, and the stubs of Userland/SampleCodeModule/asm/UserSyscalls.asm (Stubs).
--   Interrupts come one after another, as the gates keep others out; what a system call leaves of
--   the keyboard is an argument of irq_dispatcher. The moves of _irq60Handler are left out.
-- - Syscalls: sys_write and sys_read of Kernel/syscalls.c, over the kernel, the pipes and the
--   screen. A read from the keyboard is left to the rounds of Keyboard.Reading.
-- - Screen: Kernel/drivers/videoDriver.c: pixels, rectangles and the cursor; Painting has the
--   loops over the screen, the ball and the words at a place. The font is a parameter.
-- - Modules: Toolchain/ModulePacker/main.c and Kernel/moduleLoader.c. The rounds of write_file are
--   the bytes of the file and one more.
-- - Userland.Utils: Userland/SampleCodeModule/utils.c; what get_c returns is a list of characters.
--   itoa has 33 rounds and put_int 12, since an int has at most 32 binary and 10 decimal digits.
-- - Userland.Shell: Userland/SampleCodeModule/shell.c and buffer.c: the line editor on the
--   characters of get_c.
-- - Userland.Commands: Userland/SampleCodeModule/commands.c: the scan of a line into words, with
--   21 rounds for its at most 20 characters, the look-up and the call of commands, and cat, wc,
--   filter and find_color.
-- - Userland.Pong: Userland/SampleCodeModule/pong.c: paddles, ball and score; an int is a word of
--   32 bits. Keys has the key codes, Settings the menu, whose rounds are the fuel of
--   `configuration`.
-- - Userland.Phylo: Userland/SampleCodeModule/phylo.c, a block under `mutex` as a function for a
--   run of it that no other process enters, which the code's `mutex` does not see to; the
--   semaphores of the forks are the locks of Kernel/semaphore.c.
-- - Base: numbers, lists, results and the swap loop that several parts share.
--
-- State is passed explicitly: an operation takes the state and gives the state behind it. A call
-- that can read through NULL, or loop without end, gives a `Run`, which tells a result from a
-- fault and from a lack of fuel.
--
-- Not modelled: the exceptions, the setting up of the kernel, setbg; what only prints, draws or
-- makes sounds; assembly that moves registers or ports; and the boot loader, which other projects
-- provide.
pub mod Base
pub mod Memory
pub mod Queue
pub mod Strings
pub mod Syscalls
pub mod Console
pub mod Kernel
pub mod Interrupts
pub mod Keyboard
pub mod Scheduler
pub mod Semaphore
pub mod Process
pub mod Pipe
pub mod Userland
pub mod Modules
pub mod Screen

-- ===== src/Lib.antt =====
-- Models of the kernel's memory, scheduling and input code, and what is proved of them.
--
-- Parts and files (paths from the repository's root):
--   * Utils: kernel/utils.c. align_up_u64, align_down_u64, ranges_overlap on 64-bit numbers.
--   * Pmm: kernel/pmm.c. Pmm holds the bitmap and the library of range marking; Pmm.Bitmap the bit
--     operations, Pmm.Count the frame counts, Pmm.Alloc pmm_alloc_frame, Pmm.Free pmm_free_frame,
--     Pmm.Ranges pmm_mark_range_used and pmm_mark_range_free, Pmm.Region pmm_find_free_region,
--     Pmm.Init pmm_init. `bitmap` is the pointer pmm_bitmap, and `bytes` what it points to.
--   * Heap: kernel/heap.c. The block list; Heap.Layout and Heap.Zipper how the blocks lie in memory,
--     Heap.Malloc kmalloc and heap_init, Heap.Free kfree, Heap.RoundTrip both, Heap.Wrap the sizes
--     near 2 ^ 64. Frames and page tables are the interface Paging.
--   * Workqueue: kernel/workqueue.c. Workqueue.Queue schedule and pop, Workqueue.Run
--     workqueue_run_pending, whose callbacks are a parameter.
--   * Timer: kernel/timer.c. Timer.Poll timer_poll, which fills the queue of Workqueue, and
--     Timer.Fires an item over several polls. The tick count of kernel/pit.c is an argument.
--   * Tty: kernel/tty.c. The ring of keys that the keyboard interrupt fills.
--   * Keyboard: kernel/keyboard.c. keyboard_on_irq pushes into the ring of Tty.
--   * Fd: kernel/fd.c. The table of file descriptors; what kernel/vfs.c finds and transfers is an
--     argument.
--   * Klog: kernel/klog.c. The ring of log characters and its dump.
--   * Task: kernel/task.c. The task list and the cooperative scheduler; Task.Pick
--     task_pick_next_locked, Task.States the states of tasks as a step relation.
--   * Wait: kernel/wait.c. Queues of blocked tasks, linked through wait_next of the tasks of Task.
--   * Process: kernel/process.c. The process table over Task; Process.Create process_create,
--     Process.Current the current process, Process.Exit process_exit and process_wait.
--   * Ramfs: kernel/ramfs.c, the data of a file; Ramfs.File reading and writing.
--   * Vfs: kernel/vfs.c and the nodes of kernel/ramfs.c. Vfs.Components the components of a path,
--     Vfs.Lookup vfs_lookup, Vfs.Create new nodes. A pointer to a node is the tree below it.
--   * Elf: kernel/elf.c. Elf.Contents the bytes of a segment, Elf.Image the image that is built,
--     Elf.Load elf_load_from_path, which takes its memory from Heap; what kernel/vfs.c finds and
--     reads is an argument.
--   * Syscall: kernel/syscall.c. Syscall.Dispatch syscall_dispatch, over Fd and Process.
--   * Vmm: kernel/vmm.c. Page tables in memory; Vmm.Walk and Vmm.Shape the walk through them and the
--     tree that they form, Vmm.Create new tables, Vmm.Map vmm_map_page, Vmm.Unmap vmm_unmap_page.
--     Frames come from Pmm, and a function from a table and an index to an entry is the memory.
--   * Console: kernel/console.c. Console.Text the ring of lines against an unbounded text,
--     Console.Screen the display, Console.Bounds the column and the viewport, Console.Newline the
--     viewport after a newline.
--   * Print: kernel/print.c. Print.Text print to Console, Klog and the serial line, Print.Decimal
--     print_dec64.
--   * Command and Device: kernel/command.c and kernel/device.c, registries with distinct names
--     (Registry); Command.Execute command_execute, Device.Find device_find.
--   * Mouse: kernel/mouse.c. Mouse.Packet the packets of mouse_on_irq, which scrolls Console.
--   * Rtc: kernel/rtc.c. Rtc.Decode rtc_read_time against the registers of a clock.
--   * Initramfs: kernel/initramfs.c. The tar archive, loaded into the tree of Vfs; Initramfs.Octal
--     numbers, Initramfs.Paths paths, Initramfs.Load a file, Initramfs.Ends the loop over the
--     archive.
-- Prelude and its children hold the tests, lists, words, bits and ring windows that they share.
--
-- State is passed explicitly: a record per file for its static variables. A pointer to a task is a
-- position in the task list. A critical section under a spin lock, or with interrupts off, is one
-- step. Unsigned arithmetic keeps its wrap-around (add32, add64, sub64 in Prelude.Words).
--
-- Bounds and fuel: the loops over frames, map entries, buffers and tasks are recursion on the
-- number of rounds. The search of pmm_find_free_region moves its cursor past one reserve at a time,
-- so its fuel is one more than the number of reserves, which is enough. wait_queue_wake_all runs on
-- fuel, and more fuel than queued tasks is enough. process_wait runs on fuel, one for each round of
-- its loop, and one more than the rounds that the process needs to end is enough.
-- vfs_lookup runs on fuel, one for each component, and more than the characters of the path is
-- enough.
-- initramfs_load runs on fuel, one for each header, and one more than the blocks of the archive is
-- enough. The loop of print_dec64 runs on fuel, and 21 is enough for a number of 64 bits.
--
-- Not modelled: the context switch and other assembly, port I/O (the serial line, the controllers of
-- keyboard and mouse, the interrupt controller), kzalloc, running a user program, the shell, the walk
-- through the boot information, hexadecimal output, the listings and tests of the shell commands.
pub mod Prelude
pub mod Utils
pub mod Pmm
pub mod Heap
pub mod Workqueue
pub mod Timer
pub mod Tty
pub mod Keyboard
pub mod Fd
pub mod Klog
pub mod Task
pub mod Wait
pub mod Process
pub mod Ramfs
pub mod Vfs
pub mod Elf
pub mod Syscall
pub mod Vmm
pub mod Console
pub mod Print
pub mod Registry
pub mod Command
pub mod Device
pub mod Mouse
pub mod Rtc
pub mod Initramfs

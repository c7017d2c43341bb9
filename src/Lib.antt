-- ===== src/Lib.antt =====
-- Verification of linux 0.95.
--
-- The modules follow the parts of the kernel; the paths below start at the repository's root.
-- Names of definitions are those of the C functions where there is one.
--
-- Sched: kernel/sched.c. `schedule` is the wake-up pass `check_task` on every entry of the task
-- table but the first, then `choose`, the loop that picks a task (`pick`, `consider`) and recharges
-- the counters (`recharge_task`) until it has one. The loop is on fuel, and 2 rounds are enough for
-- every table whose priorities are positive. `sys_nice` changes the priorities.
-- Timer: kernel/sched.c. `add_timer` and the chain of deltas behind `next_timer`, which `tick` counts
-- down; `run_table` is the loop over `timer_table`, with the functions it calls as an argument; Floppy
-- has the motor timers. One tick needs 2 units of fuel.
-- Ids: kernel/sys.c. The four calls on user and group ids, and sequences of them.
-- Groups: kernel/sys.c and fs/namei.c. The supplementary groups, and `permission`, which asks
-- `in_group_p` for them.
-- Request: kernel/blk_drv/ll_rw_blk.c and blk.h. A buffer is turned into a request by
-- `make_request`, which finds a slot and hands it to `add_request`; the driver takes it off with
-- `end_request`.
-- Pipe: fs/pipe.c. Reading and writing between two sleeps; the loops are on fuel, and one round more
-- than there are bytes is enough.
-- Mktime: kernel/mktime.c. `kernel_mktime`, on integers that go round at 32 bits, against a calendar.
-- Sys: kernel/sys.c, and `session_of_pgrp` of kernel/exit.c. Process groups, limits, the clock, the
-- host name and small calls.
-- Bitmap: fs/minix/bitmap.c. The inline assembly on bit maps, and the allocation of blocks.
-- Memory: mm/memory.c and mm/swap.c. Page counts, the swap bit map, and page table entries; Tables has
-- the copying and freeing of page tables, Share what two tasks share, and Fault the handling of page
-- faults. The allocation of a page that may swap others out first is an argument (`Allocator`).
-- `get_free_page` goes up to its call of `swap_out`, or to the jump back for a page above the memory,
-- where ecx is 0 and the rest depends on a flag that the compiler leaves.
-- Files: fs/fcntl.c. Duplicating a descriptor and the commands of `sys_fcntl`; Open has `sys_open`,
-- `sys_creat` and `sys_close` of fs/open.c on the descriptors and the file table.
-- Signal: kernel/exit.c and kernel/signal.c. `send_sig` to one task, the loops of `kill_pg` and
-- `kill_proc`, the mask of blocked signals, and the handlers.
-- Console: kernel/chr_drv/console.c. `con_write` runs one character at a time through the states of
-- the escape sequences (Print and Escape); Scroll, Edit and Attr have the operations, each on the words
-- of video memory, and Safe what they keep.
-- Buffer: fs/buffer.c. The heads of the buffers and their links, `take_over`, which is the end of
-- `getblk`, and what the links stand for (Queue, Unlink, Hash, Links, Insert, TakeOver); Lookup and
-- Map have `find_buffer`, and Getblk the choice of a buffer. `find_buffer` is on fuel, and as much as
-- the queue is long is enough; the loop of `getblk` makes one turn more than there are buffers, as in
-- the code.
-- Format: kernel/vsprintf.c. `skip_atoi` and `number`, and in Convert `vsprintf`, one directive at a
-- time; its loop is on fuel, and the length of the format is enough. The digits of a number are on
-- fuel too, one unit for each binary digit.
-- String: include/string.h. Search, Compare, Span, Token, Copy and Move have the inline assembly of the
-- string functions on a memory of bytes, with `repne scasb` and `rep movsb` as loops on the count. The
-- loops that end at a NUL are on fuel, and one unit more than the length of the string is enough.
-- Tty: include/linux/tty.h and kernel/chr_drv/tty_io.c. The queues of a terminal and
-- `copy_to_cooked`, whose loop is on fuel: one turn more than there are bytes to read is enough. Read
-- has `tty_read` and Write `tty_write`, each up to its next sleep; `tty_write` takes at most two turns
-- for a byte and two more.
-- Exit: kernel/exit.c. `sys_waitpid` up to its sleep, on the list of the caller's children.
-- Base: shared names, integers (Int), bits of words (Bits, Masks), lists and Boolean tests. A number
-- of the C code is a native ℕ where it cannot be negative, with its wrap-around written out where it
-- can overflow, and otherwise an integer ℤ.
--
-- Interrupts are taken to be off where the code turns them off, and a sleep ends the operation that
-- calls it: it is a result of the model. What code outside the modelled part does, such as the
-- function of a timer or the buffer of a block, is an argument.
--
-- Not modelled: the boot code, the assembly stubs and traps, the device drivers with the serial lines,
-- and the coprocessor emulation, since they are device I/O, register frames and descriptor tables; of
-- the terminals their start, the ioctls and the pseudo terminals; of the memory `swap_out`, the
-- transfer to the swap file and `show_mem`; the rest of the buffer cache, inodes, path names, exec,
-- fork, the rest of kernel/exit.c, the return to a signal handler and the user library.
pub mod Base
pub mod Sched
pub mod Timer
pub mod Tty
pub mod Ids
pub mod Groups
pub mod Request
pub mod Pipe
pub mod Mktime
pub mod Sys
pub mod String
pub mod Bitmap
pub mod Memory
pub mod Files
pub mod Signal
pub mod Console
pub mod Buffer
pub mod Format
pub mod Exit

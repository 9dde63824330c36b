-- ===== src/Lib.antt =====
-- pcboot, a 32-bit kernel for PC demos and games: a model of its C sources, and what is proved of it.
--
-- The kernel keeps the physical memory by pages (src/mem.c), gives out smaller blocks of it with the
-- malloc of its C library (src/libc/malloc.c), counts time by the interrupts of a timer, which drive
-- the alarms (src/timer.c), starts its calendar (src/libc/time.c) from the real-time clock
-- (src/rtc.c), and collects the keys that are pressed (src/keyb.c) and the bytes of the serial ports
-- (src/serial.c), both in ring buffers. malloc takes fresh pages from alloc_ppages, and its model
-- calls the model of that function; init_rtc calls mktime. The front end of the file systems
-- (src/fs.c) calls that of the FAT volumes (src/fsfat.c), which reads the sectors of the boot drive, or
-- that in memory (src/fsmem.c); both take paths apart with its functions, and src/mtab.c keeps the mounts.
--
-- Each module models one part, its children hold the proofs, and the child Tests runs the model:
-- - Mem: src/mem.c. The state is the bitmap as words by their index, bmsize, last_alloc_idx and the
--   interrupt flag. Functions keep their names; the loops of alloc_ppages are search_up and
--   search_down, with visit_word, scan_word and try_page for their bodies. search_up runs on fuel,
--   one more than the words of the bitmap, since the index only grows until it is their number.
-- - Malloc: src/libc/malloc.c with SINGLE_POOL. The state is the descriptors by their address, the
--   pool as a list of addresses, and the state of Mem. The loops of malloc and free are take_block
--   and insert_free. The children: Chain (the order of the pool), FreeList (free), TakeBlock (the
--   walk of malloc), Valid (the state between calls), Safe, Fresh, Give, Answer (malloc, free), Resize
--   (realloc), Runs (sequences of calls), Sliver (a rest that is too small).
-- - Timer: src/timer.c. The state is the list of events with the ticks between them, the ticks and the
--   interrupt flag. Queue is the abstract view, in which each alarm has its absolute time, and Refine
--   relates the two.
-- - Time: src/libc/time.c and src/rtc.c. The loops of gmtime_r are on fuel, one more than the days,
--   and 13 months, which are enough for every time.
-- - Keyb: src/keyb.c with the tables of src/kbscan.h. The state is the buffer of key presses, the
--   keys that are down, their count, and the prefix that kbintr has seen. Decode relates it to the
--   presses and releases that the bytes stand for.
-- - Serial: src/serial.c. The state is the two ports, with the ring of the bytes that each received.
--   Waiting for a byte is a result of ser_getc, and what the UART gives is an argument of recv_intr.
-- - Strings: src/libc/string.c and src/libc/ctype.c, the comparisons. A string is the list of its bytes
--   before the terminator, and the loops are recursions on it.
-- - Stdlib: src/libc/stdlib.c. The loops over digits run on 32 rounds, which are enough for 32 bits in every
--   base. Text and Round have the numbers in text; Sort has ins_sort and qsort on an array as a function of its
--   indexes. qsort is on fuel, since it does not end on every array.
-- - Fs: src/fs.c, the calls of a file system by its struct fs_operations, which is a record here, the
--   working directory and the parts of a path. Path has the loop over a path that both file systems
--   run, Chdir what fs_chdir does to the path of the working directory.
-- - Fat: src/fsfat.c. Sectors are those of a parameter that stands for bdev_read_range. The table, read
--   and seek are in Fat itself, on a chain of clusters that Chain describes; the loop of read runs on fuel, one
--   more than the bytes wanted, of which each round copies one at least. Dir has names and directories:
--   load_dir runs on fuel, of which a chain needs as much as it is long; whether realloc gives its buffer is a
--   parameter. Create has fsfat_create, with as
--   much fuel as there are sectors to read.
-- - Fsmem: src/fsmem.c. The contents of files are in Fsmem itself, with what realloc gives as an argument;
--   Tree has the directories, with a function for each field of a node, and Tree/Open the walk of open. The
--   fuel of a walk is one more than the nodes or the parts of the path.
-- - Part: src/part.c. The loops over the records and over the boot records; the latter is on fuel, one for
--   each boot record that is read. Bootdev: src/bootdev.c, the addresses of sectors for the BIOS and the
--   repetition of a read, over BIOS calls as parameters.
-- - Contty: src/contty.c. The text memory is a table of cells, and the registers of the CRTC are one of bytes.
--   Bounds and Calls have what every call keeps, Terminal the terminal that the screen is to show, Scroll and
--   Screen how far it does.
-- - Mtab: src/mtab.c. Links: lists that are linked by pointers, which Mtab and Fsmem share, with the loop
--   that takes a node out.
-- - Ring: the buffers of src/keyb.c and src/serial.c, and the queues that they refine.
-- - Prelude: numbers, bits, lists and tests that the parts share.
--
-- Integers are natural numbers. Sums that can wrap at 32 bits have the remainder written out: the
-- sizes of malloc, and the addresses of init_mem. Elsewhere the theorems or the comments of a file
-- give the bound below which nothing wraps. A panic of the kernel is none.
--
-- Not modelled are the other devices, the writes of sectors, the rest of the C library and all assembly; of the
-- file systems, the opening of a path on a FAT volume, fs_mount, and the memory of the handles that open
-- gives. What the models leave out of their own files, such as printed text, is said there.
pub mod Prelude
pub mod Contty
pub mod Stdlib
pub mod Timer
pub mod Mem
pub mod Mtab
pub mod Time
pub mod Malloc
pub mod Part
pub mod Bootdev
pub mod Ring
pub mod Keyb
pub mod Links
pub mod Serial
pub mod Strings
pub mod Fat
pub mod Fs
pub mod Fsmem

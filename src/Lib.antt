-- ===== src/Lib.antt =====
-- RetroFuture OS: a verification library for parts of a kernel for vintage PCs.
--
-- The kernel is written in C, most of it as header files below include/. The files here model these
-- parts of it, one module to a part:
--
-- Base          C words, arrays, memory and search loops: what the parts share.
-- Keyboard      include/keyboard.h. Buffer is the ring buffer (kb_buffer_*) and the inner loop of
--               keyboard_getchar, Tables the translation tables, Scancode the state machine of
--               kb_process_scancode. Queue, Translate, Event and Process hold what is proved.
-- RamDisk       include/ramdisk.h. Types has the structures and string helpers, Table the file table
--               (ramdisk_init, _find, _create, _delete, _rename, flags, _stat), Handle open files
--               (_open, _read, _write, _seek, _truncate and others), Files whole files (_read_file,
--               _write_file, _append_file, _copy), Dir the listing, statistics and extensions. The
--               other modules below it hold what is proved.
--
-- Fat12         include/fat12.h and include/fat12_write.h. Types has the structures, Table the file
--               allocation table (fat12_read_fat, _write_fat, _find_free_cluster, _alloc_cluster,
--               _extend_chain, _free_chain), Names the short names, Mount fat12_mount, _sync and
--               _unmount, Dir and File directories and open files (fat12_read_dir, _find_in_dir, _open,
--               _seek, _read, _free_space), Entry fat12_get_label and fat12_find_free_entry,
--               Params fat12_calc_params, Write new entries (fat12_write_entry, _create_file,
--               _mkdir), Change fat12_write, _flush, _delete, _rmdir, _write_file, _append_file and _rename.
--               The other modules below it hold what is proved.
--
-- IntrusiveList include/intrusive_list.h. Nodes has every function (ilist_*), Links the chains of nodes
--               that the theorems speak of. The other modules below it hold what is proved.
--
-- Vfs           include/vfs.h. Path has vfs_normalize_path and _relative_path, Types the structures,
--               Mounts the table of mount points (vfs_init, _find_mount, _mount, _unmount, _sync_all),
--               Calls the calls on paths, Handles those on open files and directories. The other modules
--               below it hold what is proved. The operations of a file system are values over a state of its own.
--
-- Assembler     include/rfasm.h. Text has the parsers of numbers, characters and identifiers, Registers
--               and Mnemonics the tables, State the output, the labels and the fixups, Encode operands
--               and ModR/M, Operations and Instruction rfasm_emit_instruction, Operands
--               rfasm_parse_operand, Line rfasm_parse_line, Source rfasm_assemble. Emission, Bounds,
--               Numbers, Phase, Fixups and Endless hold what is proved.
--
-- A function that changes an object through a pointer returns the new object beside its result. A
-- number is a natural number, and a sum of uint32_t is written out modulo 2 ^ 32 (add32). A C string
-- is the list of its bytes before the terminator. The data area of the RAM disk is a function from
-- addresses to bytes, so that a write out of bounds would be seen. An entry of its file table is
-- named by its index, which stands for a pointer to it. The tick counter is an argument, now.
--
-- The block device of the FAT12 driver is a pair of functions over a state of their own, which the
-- volume holds as it holds the callbacks in the source. A call that does not return gives none.
--
-- Loops and recursions on fuel. The loop of keyboard_getchar takes 64 rounds at most, since each takes one
-- of at most 63 events. The chunk loop of ramdisk_copy has one round more than there are bytes, since
-- each round moves a byte or leaves. The search for a free cluster has 2 ^ 16 rounds, as many as its
-- counter has values. fat12_free_chain has 2 ^ 12, more than there are clusters that do not end a
-- chain. The recursion of fat12_calc_params takes its fuel as an argument: one round is enough where
-- it returns at all. The loops over a directory take theirs as an argument too, since a damaged chain
-- can run in a circle. fat12_seek, fat12_read and fat12_write have a round more than there are
-- bytes to pass.
-- The loop of vfs_normalize_path takes at least a byte of the path in a round, so it has as many rounds
-- as the path has bytes. The loops along an intrusive list take their fuel as an argument, since a
-- damaged list can run in a circle; one round more than there are nodes is enough. The loop of
-- ilist_validate has the 1000000 rounds of the source.
-- The lists of DB, DW and DD of the assembler are read in as many rounds as the caller says, since the
-- loop of DB need not end; the loop over the terms of an address takes a character in a round.
--
-- Not modelled: NULL arguments, port input and output, interrupts and the parts of the kernel that
-- are not named above. The callback of the keyboard driver is represented by the event that it is
-- called with. The arrays of rfasm.h for names (current_scope, the label of a fixup and full_name) are
-- lists without a bound: what the copies write behind their ends, which C leaves undefined, is not
-- modelled, nor is what rfasm_parse_char, rfasm_parse_line and the loop over a string read behind the
-- end of a line that stops within a literal. mount, unmount and sync_all of include/vfs.h are modelled,
-- and are no calls of the runs in Vfs/Guarded.
pub mod Base
pub mod Keyboard
pub mod RamDisk
pub mod Fat12
pub mod IntrusiveList
pub mod Vfs
pub mod Assembler

-- ===== src/Lib.antt =====
-- ocfs2-test: programs that exercise a cluster file system and verify what it stored. This library
-- models the programs that write checked contents to a file and those that read them back, on one node
-- or on several.
--
-- Kernel: what the programs ask of the system, as a record of operations on the state `Disk` of one
-- open file (pread, pwrite, the mapping, libaio, the space reservation ioctls). None of it is in the
-- repository, so every program takes it as an argument. `Stores` and `Reads` say what an undisturbed
-- disk does with a write, a hole and a read; FileVerify.Transfer.Laws.Moves says it of a disk whose
-- calls move fewer bytes than they are asked to, and `Keeps` of a disk that does all it is asked to.
-- Kernel.Slices has the lemmas on stretches of a file, Kernel.Sized a disk in memory for the tests.
--
-- Aio (programs/libocfs2test/aio.c): the count of requests of an o2test_aio context.
--
-- Holes (programs/fill_verify_holes): three programs that share a log of writes, a character, an
-- offset and a length each (fill_holes.h).
--   Holes.Fill, Holes.Fill.Program (fill_holes.c): fh_prep_rand_write_unit is range_of, next_chunk,
--     place, attempt, asserts and draw_unit; fh_do_write is do_write; the loop of main is fill_loop,
--     and run is main from the set-up of the chunks on.
--   Holes.Punch (punch_holes.c): ph_prep_rand_write_unit is random_write, ph_do_write is write_unit,
--     the loop of ph_prep_file is populate, that of main is punch_loop.
--   Holes.Tree, Holes.Verify, Holes.Replay, Holes.Check (verify_holes.c): vh_insert_chunk is
--     insert_chunk, with the search in descend and the branches in overlap and restart; vh_init_tree
--     and vh_read_log are init_tree and read_log; vh_check_chunk and vh_check_file are check_chunk and
--     check_file; run is main after the options.
--   A log is specified by Holes.Replay.overlay, the writes one over the other. The tree of extents is
--   binary with an in-order sequence; the balancing of the red-black tree (kernel-rbtree.h is not in
--   the repository) is the parameter RbTree, with the laws that erasing and colouring keep the
--   sequence.
--
-- FileVerify (programs/libocfs2test/file_verify.c): crc32_checksum is Crc (with the table of
-- crc32table.h in Table), fill_chunk_pattern, dump_pattern and verify_chunk_pattern are Pattern,
-- read_at, write_at, do_write_chunk and do_read_chunk are Transfer, and the log and the loop of
-- verify_file are Records. Prepare has prep_rand_dest_write_unit, prep_orig_file_in_chunks and log_write,
-- and Verify has verify_file itself, with a log or with the records of other nodes. Store and Places say
-- what a sequence of writes leaves in the chunks of a file, on a disk that puts a write at its offset and
-- on one that appends it. Memory is a function from addresses to bytes. The machine is little-endian
-- with an unsigned long of 64 bits.
--
-- Frager (programs/defrag-test/frager.c, with verify_file.c, whose main calls verify_file): the order in
-- which append_write_file writes the chunks is write_order, with the draws in place_chunk and
-- place_chunks, and its second half is write_chunks. The names are those of the source.
--
-- Truncate (programs/truncate/verify_truncate.c): get_rand_ull, get_rand_buf, file_truncate and
-- verify_truncate keep their names, prep_file is prep_file_with_pattern and run an iteration of run,
-- up to the unlink.
--
-- AppendTruncate (programs/write_append_truncate/write_append_truncate.c): a round of main is draw_round,
-- reset, the race as the step relation RaceStep, and check; Race.Appends says what the shared file does.
-- Passes is about the check of any file, raced for or not.
--
-- ExtendWrite (programs/extend_and_write): the two processes of extend_and_write.c are the step relation
-- Runs on the file and each process's place, a step being a write and the fsync behind it; checkbuff keeps
-- its name, count_blocks is the loop of verify.c, and verify its main. Blocks.ReadsBack and Run.Grows say
-- what the file does.
--
-- Inline (programs/inline-data): Inline is inline-data-utils.c, under the names of its functions, and
-- Inline.Regular the tests of test_regular_file in inline-data.c that one process runs on one file, one
-- definition for each test and each loop. Inline.Children has the tests of several processes: own_file
-- is a child of multi_file_rw_test, FamilyStep a step of one process of concurrent_rw_test. State is
-- the pattern in memory, the file and the calls of rand() so far. Inline.Inode has the calls of the
-- system and of libocfs2 that go beyond Kernel, as a record Volume, and says with File, a file of which
-- is known whether its data are in its inode, what a volume does that keeps small files in their inodes
-- (Inlines, Reserves).
--
-- Lvb (programs/lvb_torture/lvb_torture.c): run_test of all ranks is the step relation Step on the
-- value block and each rank's place and count; the cluster lock and MPI_Barrier are guards of steps.
--
-- Mmap (programs/multi_node_mmap/multi_mmap.c): write_verify_blocks and the passes of main, of all
-- ranks, are the step relation Step on the shared file and each rank's place and turn; next_turn is the
-- end of a round, expected_pattern is fill_with_expected_pattern, write_block and read_block keep their
-- names, and the barrier opens when all ranks are in it.
--
-- Common: the names of the libraries that all modules use, lists over native numbers, and Result, what
-- a C routine comes to: a value, an error, an abort, or fuel that has run out.
--
-- Numbers are natural numbers, and arithmetic of C integers has its wrap-around written out (add64,
-- sub64, to_u32). The value of the i-th call of rand() is a parameter `stream`.
--
-- Fuel: restart has one unit per inner call and restart that there can be, check_chunk one per byte of
-- the chunk. The other fuels are arguments: the passes of the loops that draw again until a random
-- length is not zero, the rounds of populate, and the calls of pread and pwrite for one transfer. One
-- round of populate per byte of the file is enough, one call per byte for a transfer, and one draw per
-- write where no random length is zero. The random order of frager.c is found with as many draws per chunk
-- as rand() takes to give every remainder, and prep_orig_file_in_chunks takes a round per chunk and one
-- more. prep_file of Truncate takes a round per cluster and one more, the
-- test of inline-data that punches holes one per 11 bytes and one more, and mapping_size one per byte.
--
-- Where the models stop short of the code: the colours of the red-black tree are not kept, as only its
-- in-order sequence is used; the sum of offset and count in read_at is not wrapped at 64 bits, which
-- differs for offsets next to 2^64 only; o2test_aio_pwrite reads the array of requests before it tests the
-- count, which has no effect in the model; and punch_run stops at a malformed line of a replay log, where
-- main of punch_holes.c goes on with a negative descriptor.
--
-- Not modelled: options, the set-up of files and volumes, printing, processes and signals, the
-- semaphores and sockets of file_verify.c, fork and waiting for children, and the other programs of the
-- repository, which are mostly sequences of system calls around a kernel that is not part of it.
pub mod Aio
pub mod AppendTruncate
pub mod Common
pub mod ExtendWrite
pub mod FileVerify
pub mod Frager
pub mod Holes
pub mod Inline
pub mod Kernel
pub mod Lvb
pub mod Mmap
pub mod Truncate

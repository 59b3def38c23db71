-- ===== src/Lib.antt =====
-- Models of the C and C++ programs of this repository: two versioning file systems over FUSE, and the
-- runner that types commands into a virtual machine. copyfs
-- (fs/copyfs/box/source) keeps every version of a file as a real file of its own and describes the
-- versions in a metadata file beside them. waybackfs (fs/waybackfs/box/source) changes files in place
-- and appends to a log beside each file, and to a catalog in each directory, what undoes a change.
--
-- Parts and files. `Base` has the shared types, tests and list lemmas: C's `int` (`Base/Int`),
-- strings as bytes without the final NUL (`Base/Text`), and programs with a state, in which `none` is
-- the death of the process (`Base/Prog`). `Libc` is what the code calls: string search, the formats
-- of `printf` and `scanf` that it uses, `fgets`, and a disk with a script of failing calls
-- (`Libc/Os`). `Copyfs` follows the source files:
--   structs.h    Copyfs/Structs, Copyfs/World (the heap, the cache's table, the globals)
--   lookup.c     Copyfs/Lookup (rcs_find_version), Copyfs/Translate (rcs_translate_path)
--   helper.c     Copyfs/Helper: Split, Composite, ReadLine, Names
--   write.c      Copyfs/Write
--   parse.c      Copyfs/Parse (metadata files), Copyfs/Default (default files)
--   cache.c      Copyfs/Cache, with `helper_hash_string`; its chains as lists of addresses are in
--                Copyfs/Cache/Links, and its states behind `cache_initialize` in Copyfs/Cache/History
--   create.c     Copyfs/CopyFile, Copyfs/Create, Copyfs/NewFile
--   interface.c  Copyfs/Callbacks: Stat, Listing, Make, Remove, Change, Contents, Pass
--   ea.c         Copyfs/Attributes: Purge (rcs.purge), Lock (rcs.locked_version), Dump
--                (rcs.metadata_dump), Dispatch (the four callbacks)
--   main.c       Copyfs/Main
-- `Wayback` follows waybackfs, whose daemon is src/wayback.c and src/waybackfsvops.c and whose tools
-- are vutils.pl:
--   wayback.c         Wayback/Globals (its global strings), Wayback/Callbacks, and `main` in
--                     Wayback/Settings; `matchesdeleted` in Wayback/Names
--   waybackfsvops.c   Wayback/Log (writebuffer, ver_updateversion), Wayback/Catalog (bufferstats,
--                     ver_updatedirectory), Wayback/Names (getdirectorycatalog, makerelative,
--                     ver_deletedpath), Wayback/Settings (gotovalue, readsettings, parseargs)
--   vutils.pl         Wayback/Tools (readfile and vrevert of a file), Wayback/Tools/Directory
--                     (readdirectory), Wayback/Log/Entry (an entry of a version file, and
--                     revertfileentry)
-- Numbers in the logs are in Wayback/Words, and Wayback/History puts callbacks, logs and tools
-- together, for one file and for the catalog of a directory. A callback of waybackfs works on the
-- redirected path (`full`); a write or a truncation calls `updateversion` first, and every change of
-- a directory calls `updatedirectory` behind it; `ver_getdir` leaves out the names that `hides`
-- knows.
--
-- `TtyRunner` follows tools/tty_runner/src:
--   arg.cpp           TtyRunner/Args; what boost makes of the arguments is an argument of `construct`
--   tty_runner.cpp    TtyRunner/Threads: the globals (`Shared`), a relation for the steps of each of
--                     `run_pty`, `run_pty_killer`, `run_qemu` and `run_qemu_executor` (`PtyMove`,
--                     `KillerMove`, `QemuMove`, `ExecutorMove`), and their interleavings
--                     (`Step` of TtyRunner/Threads/Process)
--   pty_launcher.cpp  `pty_opened` and `read_output` of TtyRunner/Threads
--   tty_executor.cpp  `execute_key` of TtyRunner/Threads
--   utils.hpp         `string_contains` of TtyRunner/Threads
-- TtyRunner/Session goes from the files of commands to the bytes that are handed to TIOCSTI. A step is what one
-- thread does between two uses of the globals; the four threads and the signal handler take their
-- steps in any order. A `wait` can end in each
-- state in which its value is true, also without a notification: the relations hold every run of the
-- program and more, and nothing is said of threads that wake up. What `openpty`,
-- `read`, `ioctl` and the command of `exec` give is chosen freely at each step, and an exception
-- that leaves a thread, or the use of a null pointer, ends the process (`Fate`).
--
-- A callback of copyfs translates its path (`translate_path`), which goes through the cache and
-- reads metadata files; picks a version (`find_version`); and, to change a file, puts a version in front
-- of the chain and writes both files (`create_link_version`). The functions keep the source's names, less
-- the prefixes rcs_, helper_ and callback_ (a callback whose bare name is a call of the C library
-- is named for what it works on: `unlink_file`, `read_file`).
--
-- Choices. A version chain is a list, newest first; metadata structures are shared, so they stand at
-- addresses of a store, and a freed address holds nothing. Numbers are `unsigned`, 32 bits wide, with
-- their wrap-around. Results of `close`, `free` and `lchown`, which the code does not look at, and
-- running out of memory, which aborts, are left out. The entries that `readdir` gives, the context of
-- the caller and the bytes of fresh memory are arguments. In a `fail` of the script the call has no
-- effect but `errno`, and what a stream had written by then; reads of a stream that is open do not
-- fail, but of a directory, on which the parser of metadata files does not return. The widths of `time_t` and its like are an
-- argument of the waybackfs daemon (`Sizes`), as are what `lstat` says of a node and what a
-- `struct stat` holds that was never filled (`Host`); in copyfs the calls on the attributes of real
-- files (`Xattr`), utime, statfs, the times and sizes in a dump (`Unfilled`) and FUSE's loop are
-- arguments.
--
-- Fuel. Reading a line takes a round for each byte of the file and one more, parsing a file a round for
-- each byte and two more, and copying a file a round for each byte and each scripted call: every round
-- but the last takes a byte, meets the end of the file or uses up a scripted call. A walk along a
-- cache chain has a round for each address handed out and one more; a chain with a cycle, on which
-- the code does not end, is the death of the process here. In waybackfs, the loops of `ver_updateversion`
-- have a round for each byte of the file and two more at most, those over a text a round for each byte
-- and one more. The search for a free name has no bound in the code; its fuel is an argument of
-- `ver_rmdir`. A file of commands takes a round for each byte and one more.
--
-- Not modelled: of the tools of waybackfs all but the reading of logs and the undoing of changes of a
-- file; the hand-over to FUSE; the messages of tty_runner and its output file; and the scripts around
-- them.
pub mod Base
pub mod Libc
pub mod Copyfs
pub mod Wayback
pub mod TtyRunner

-- ===== src/Lib.antt =====
-- Verification of native code of this repository, written in Rust: the boot image tool
-- magiskboot (native/src/boot), the SELinux policy tool (native/src/sepolicy), and of the daemon
-- (native/src/core) the modules, the persistent properties, the messages, the requests of clients
-- and the boot stages. The definitions follow the source function by function and run on concrete
-- inputs.
--
-- Parts, and where they are modelled:
-- - Prelude: what the other modules share, with lists of bytes, Boolean tests, the result type
--   `Outcome` (LoggedResult, or a panic) and UTF-8 (Prelude/Utf8).
-- - BtreeMap: `BTreeMap<String, V>` as the list of its entries in key order, with its laws. The
--   archive in memory is one.
-- - Boot/Patch: native/src/boot/patch.rs. `match_patterns!`, `remove_pattern`, `patch_verity`,
--   `patch_encryption`, `hex2byte`, `hexpatch`. Patch/Matching has what a match takes, Patch/Flags
--   the flags by their names.
-- - Boot/Cpio: native/src/boot/cpio.rs. Cpio/Header has the header fields and their numbers,
--   Cpio/Archive `load_from_data` and `dump`, Cpio/Edit `rm`, `exists`, `add`, `mkdir`, `ln`,
--   `mv` and `ls`, Cpio/Status `patch` and `test`, Cpio/Backup `backup` and `restore`
--   (Backup/Merge and Backup/Kinds are the loop by lookups, Backup/TakenOut and Backup/RmList
--   what `restore` reads, Backup/Restored the two after one another), Cpio/Extract `extract`,
--   Cpio/Display an entry's printed form, Cpio/Commands `cpio_commands`, which runs the others.
--   `patch` uses Boot/Patch on the data of fstab files.
-- - Boot/Format: native/src/boot/format.rs, with the enum FileFormat of native/src/boot/lib.rs.
-- - Boot/Payload: native/src/boot/payload.rs. The loop over the operations is `run_ops`;
--   Payload/Image has a reading without a cursor, Payload/Written one write into the image, and
--   Payload/Contents the bytes of the image.
-- - Sepolicy: native/src/sepolicy/statement.rs. Sepolicy/Lexer has the tokeniser,
--   Sepolicy/Terms the parsers of names and permissions with their grammar, Sepolicy/Statement
--   `exec_statement`, `parse_statement` and `load_rules`; what a statement does is the one call
--   of SePolicy that it makes. Sepolicy/Display has the texts of tokens, hints and the help.
-- - Core/Socket: native/src/core/socket.rs, `Encodable` and `Decodable`, with the code that
--   native/src/base/derive/decodable.rs derives for structs. The machine is little-endian.
-- - Core/Module: native/src/core/module.rs. Module/Tree is the tree `FsNode`, Module/Collect
--   `collect`, Module/Tmpfs `commit_tmpfs`, Module/Commit `commit`, Module/Inject the two
--   `inject` functions, Module/Apply `apply_modules`, Module/Store the directory of modules with
--   `upgrade_modules`, `disable_modules` and `remove_modules`, Module/Select `collect_modules`
--   (Select/Marks is one module of it), Module/Handle `handle_modules`, which runs them in order.
-- - Core/Persist: native/src/core/resetprop/persist.rs, both kinds of storage.
-- - Core/Settings: the settings of native/src/core/db.rs.
-- - Core/Stages: native/src/core/bootstages.rs. `boot_stage_handler` is one request on the record
--   Daemon; Stages/Loads counts the loads of modules, Stages/Machine has sequences of requests,
--   and Machine/Bootloop sequences of boots.
--   It uses Core/Settings for the count of boots; Core/Module is its `handle_modules`.
-- - Core/Requests: `handle_requests` and its handlers in native/src/core/daemon.rs, with
--   `su_daemon_handler` of native/src/core/su/daemon.rs. It reads messages by Core/Socket and runs
--   Core/Stages.
-- - Core/Pool: native/src/core/thread.rs, which runs the handlers. A step is what one thread or one
--   caller does with the lock, or the end of a wait. Pool/Counted has the invariant, Counted/Moves
--   and Counted/Given the steps of threads and of callers, Counted/Notified whom a notification
--   reaches, and Counted/Progress who takes a pending task.
--
-- State: the file system that modules are compared with is the record World, whose fields are
-- the answers to `lstat`, `get_attr` and the reading of directories; `commit` is the list of
-- calls that it makes, with whether those that must succeed did. A call may not change the
-- answers about other paths. The directory of modules is a list of names with the files below
-- each, and what the storage of properties holds is the record Storage. The daemon is the
-- record Daemon, with the bits of BootState, the settings and the list of calls made so far;
-- requests are served one after the other, as the lock of the boot stages makes them. An
-- archive is `Entries`; each operation takes it and gives the new one. The mutable buffer of
-- `remove_pattern` is the record RemoveState, with both cursors.
--
-- Fuel: `load_loop` has one unit for each byte and one more, and a header alone takes 110 bytes;
-- `remove_loop` has one for each byte and one more, and each round moves the read cursor;
-- `extract_fuel` has the length of the word and one more, and each piece is shorter;
-- `xperm_list` has one for each token and one more, and each round takes a token;
-- `decimal_fuel` has one unit more than the number, which is more than its digits.
--
-- Words: an i32 of the settings is the number of its 32 bits, and the count of boots wraps in them.
-- Offsets of the payload are computed in 64 bits.
--
-- Taken as given: `file.write` writes all its bytes; positions in a file do not overflow usize.
-- Parameters: the xz coders, `MutBytesExt::patch`, the argument parser, the environment
-- variables, the denylist and its handler, which is C++, the statements of SQLite, the exit
-- status of a shell, the files to add and to compare with, and the file system calls of
-- `extract`. The HashMap of `backup` and `restore` is a BtreeMap; its order is never seen. In
-- the policy statements a text is a list of code points, and in the archive one of bytes.
--
-- Not modelled: messages on the terminal, and the other components:
-- PROJECT.json names each with the reason.
pub mod Boot
pub mod BtreeMap
pub mod Core
pub mod Prelude
pub mod Sepolicy

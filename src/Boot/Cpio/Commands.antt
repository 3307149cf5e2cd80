-- ===== src/Boot/Cpio/Commands.antt =====
-- `cpio_commands` of native/src/boot/cpio.rs: a list of commands on one archive.
pub mod Order
pub mod Invariant
use magisk_t.Prelude.{
  ℕ, Bool, Option, none, some, List, [], ◌∷◌, if◌then◌else◌, Bytes, codes, starts_with, split,
  Outcome, ok, err, panic,
}
use magisk_t.Boot.Cpio.{Entries, non_empty}
use magisk_t.Boot.Cpio.Archive.{dump}
use magisk_t.Boot.Cpio.Edit.{InFile, rm, mkdir, ln, mv, ls}
use magisk_t.Boot.Cpio.Status
use magisk_t.Boot.Cpio.Backup
use magisk_t.Boot.Cpio.Extract
use magisk_t.Boot.Cpio.Edit
use magisk_t.Boot.Cpio.Extract.{Created, FileSystem}

-- `CpioAction`
pub data CpioAction : Type 0 where
  test restore patch : CpioAction
  exists : (path : Bytes) → CpioAction
  backup : (origin : Bytes) (skip_compress : Bool) → CpioAction
  remove : (path : Bytes) (recursive : Bool) → CpioAction
  move : (from to : Bytes) → CpioAction
  extract : (paths : List Bytes) → CpioAction
  make_dir : (mode : ℕ) (dir : Bytes) → CpioAction
  link : (src dst : Bytes) → CpioAction
  add : (mode : ℕ) (path file : Bytes) → CpioAction
  list : (path : Bytes) (recursive : Bool) → CpioAction

-- What the commands read from outside: the parser of `argh` (`none` exits with the usage), the xz
-- coders, the two environment variables, files to add, archives to compare with.
pub record World : Type 0 where
  pub from_args : List Bytes → Option CpioAction
  pub encoder : Bytes → Option Bytes
  pub decoder : Bytes → Option Bytes
  pub keep_verity : Bool
  pub keep_force_encrypt : Bool
  pub get_attr : Bytes → Outcome InFile
  pub load_from_file : Bytes → Outcome Entries
  pub file_system : FileSystem

-- How a command ends the program: by `exit`, by a return with nothing written, or by a failure.
pub data Exit : Type 0 where
  exited : ℕ → Exit
  listed : Entries → Exit
  returned failed panicked usage : Exit

-- How the program ends: with the archive written, or in a command.
pub data Ended : Type 0 where
  dumped : Bytes → Ended
  left : Exit → Ended

-- What one command comes to.
pub data Turn : Type 0 where
  next : Entries → Turn
  ended : Exit → Turn

-- `?`
unfoldable pub or_failed {ℓ} : {A : Type ℓ} → Outcome A → (A → Entries) → Turn
or_failed (ok a) f = next (f a)
or_failed err f = ended failed
or_failed panic f = ended panicked

unfoldable pub extract_paths : World → Entries → List Bytes → Outcome (List (Bytes × Created))
extract_paths w entries [] = Extract.extract w.file_system entries none none
extract_paths w entries (path ∷ out ∷ []) =
    Extract.extract w.file_system entries (some path) (some out)
extract_paths w entries _ = err

unfoldable pub run_action : World → CpioAction → Entries → Turn
run_action w test entries = ended (exited (Status.test entries))
run_action w restore entries = next (Backup.restore w.decoder entries)
run_action w patch entries = next (Status.patch w.keep_verity w.keep_force_encrypt entries)
run_action w (exists path) entries =
    if Edit.exists entries path then ended returned else ended failed
run_action w (backup origin skip) entries =
    or_failed (Backup.backup w.encoder entries (w.load_from_file origin) skip) (λ after. after)
run_action w (remove path recursive) entries = next (rm entries path recursive)
run_action w (move from to) entries = or_failed (mv entries from to) (λ after. after)
run_action w (make_dir mode dir) entries = next (mkdir entries mode dir)
run_action w (link src dst) entries = next (ln entries src dst)
run_action w (add mode path file) entries =
    or_failed (Edit.add entries mode path (w.get_attr file)) (λ after. after)
run_action w (extract paths) entries = or_failed (extract_paths w entries paths) (λ _. entries)
run_action w (list path recursive) entries = ended (listed (ls entries path recursive))

-- One round of the loop over the commands.
unfoldable pub run_command : World → Bytes → Entries → Turn
run_command w cmd entries =
    if starts_with cmd (codes "#")
    then next entries
    else elim (w.from_args (non_empty (split b' ' cmd))) [
      | none ↦ ended usage
      | some action ↦ run_action w action entries
    ]

unfoldable pub run_commands : World → List Bytes → Entries → Ended
run_commands w [] entries = dumped (dump entries)
run_commands w (cmd ∷ cmds) entries = elim (run_command w cmd entries) [
  | next entries' ↦ run_commands w cmds entries'
  | ended e ↦ left e
]

-- `none` for a file that does not exist.
unfoldable pub cpio_commands : World → Option (Outcome Entries) → List Bytes → Ended
unfolding run_commands
cpio_commands w none cmds = run_commands w cmds []
cpio_commands w (some (ok entries)) cmds = run_commands w cmds entries
cpio_commands w (some err) cmds = left failed
cpio_commands w (some panic) cmds = left panicked

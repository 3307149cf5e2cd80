-- ===== src/Boot/Cpio/Commands/Invariant.antt =====
-- Every command of native/src/boot/cpio.rs keeps the archive in key order.
use magisk_t.Prelude.{
  ◌≡◌, refl, subst, inl, inr, Option, none, some, List, [], ◌∷◌, Bool-cases, Option-cases, Bytes,
  codes, starts_with, split, Ok, Outcome, ok, err, panic,
}
use magisk_t.BtreeMap.Laws.{IsSorted}
use magisk_t.Boot.Cpio.{Entries, non_empty}
use magisk_t.Boot.Cpio.Edit
use magisk_t.Boot.Cpio.Archive.{load_from_data, dump}
use magisk_t.Boot.Cpio.Archive.Ordered.{load_from_data-IsSorted}
use magisk_t.Boot.Cpio.Commands.Order.{
  rm-IsSorted, mv-IsSorted, add-IsSorted, restore-IsSorted, backup-IsSorted, patch-IsSorted,
  mkdir-IsSorted, ln-IsSorted,
}
use magisk_t.Boot.Cpio.Commands.{
  World, CpioAction, test, restore, patch, exists, backup, remove, move, extract, make_dir, link,
  add, list, dumped, left, Turn, next, ended, run_action, run_command, run_commands, cpio_commands,
  or_failed, extract_paths,
}

or_failed-IsSorted :
    (m : Outcome Entries) (turn : Entries)
    → Ok IsSorted m
    → or_failed m (λ after. after) ≡ next turn
    → IsSorted turn
unfolding or_failed
or_failed-IsSorted (ok m) turn s h = subst IsSorted (cc) s
or_failed-IsSorted err turn s h = absurd (cc)
or_failed-IsSorted panic turn s h = absurd (cc)

or_failed-same :
    {A : Type 0} (m : Outcome A) (entries turn : Entries)
    → or_failed m (λ _. entries) ≡ next turn
    → entries ≡ turn
unfolding or_failed
or_failed-same (ok m) entries turn h = cc
or_failed-same err entries turn h = absurd (cc)
or_failed-same panic entries turn h = absurd (cc)

-- Where a command lets the next one run, the archive is in key order as before.
run_action-IsSorted :
    (w : World) (action : CpioAction) (entries turn : Entries)
    → IsSorted entries
    → run_action w action entries ≡ next turn
    → IsSorted turn
unfolding run_action
run_action-IsSorted w test entries turn s h = absurd (cc)
run_action-IsSorted w restore entries turn s h =
    subst IsSorted (cc) (restore-IsSorted w.decoder entries s)
run_action-IsSorted w patch entries turn s h =
    subst IsSorted (cc) (patch-IsSorted w.keep_verity w.keep_force_encrypt entries s)
run_action-IsSorted w (exists path) entries turn s h =
    elim (Bool-cases (Edit.exists entries path)) [ inl e ↦ absurd (cc) | inr e ↦ absurd (cc) ]
run_action-IsSorted w (backup origin skip) entries turn s h =
    or_failed-IsSorted _ turn (backup-IsSorted w.encoder entries (w.load_from_file origin) skip s) h
run_action-IsSorted w (remove path recursive) entries turn s h =
    subst IsSorted (cc) (rm-IsSorted entries path recursive s)
run_action-IsSorted w (move from to) entries turn s h =
    or_failed-IsSorted _ turn (mv-IsSorted entries from to s) h
run_action-IsSorted w (make_dir mode dir) entries turn s h =
    subst IsSorted (cc) (mkdir-IsSorted entries mode dir s)
run_action-IsSorted w (link src dst) entries turn s h =
    subst IsSorted (cc) (ln-IsSorted entries src dst s)
run_action-IsSorted w (add mode path file) entries turn s h =
    or_failed-IsSorted _ turn (add-IsSorted entries mode path (w.get_attr file) s) h
run_action-IsSorted w (extract paths) entries turn s h =
    subst IsSorted (or_failed-same (extract_paths w entries paths) entries turn h) s
run_action-IsSorted w (list path recursive) entries turn s h = absurd (cc)

run_command-IsSorted :
    (w : World) (cmd : Bytes) (entries turn : Entries)
    → IsSorted entries
    → run_command w cmd entries ≡ next turn
    → IsSorted turn
unfolding run_command
run_command-IsSorted w cmd entries turn s h = elim (Bool-cases (starts_with cmd (codes "#"))) [
  | inl comment ↦ subst IsSorted (cc) s
  | inr command ↦ elim (Option-cases (w.from_args (non_empty (split b' ' cmd)))) [
    | inl bad ↦ absurd (cc)
    | inr (action, parsed) ↦ run_action-IsSorted w action entries turn s (cc)
  ]
]

-- How a list of commands that ends with the archive written got there.
abbrev pub Written : Bytes → Type 0
Written written = (m : Entries) × IsSorted m × (written ≡ dump m)

run_commands_round :
    (w : World) (cmd : Bytes) (cmds : List Bytes) (entries : Entries) (written : Bytes)
    → IsSorted entries
    → ((entries' : Entries)
        → IsSorted entries'
        → run_commands w cmds entries' ≡ dumped written
        → Written written)
    → (turn : Turn) → run_command w cmd entries ≡ turn
    → run_commands w (cmd ∷ cmds) entries ≡ dumped written
    → Written written
unfolding run_commands
run_commands_round w cmd cmds entries written s rec (next entries') e h =
    rec entries' (run_command-IsSorted w cmd entries entries' s e) (rw (e, run_commands) at h)
run_commands_round w cmd cmds entries written s rec (ended how) e h =
    let h' : left how ≡ dumped written = (rw (e, run_commands) at h) in absurd (cc h')

run_commands-IsSorted :
    (w : World) (cmds : List Bytes) (entries : Entries) (written : Bytes)
    → IsSorted entries
    → run_commands w cmds entries ≡ dumped written
    → Written written
run_commands-IsSorted w [] entries written s h = (entries, s, unfold run_commands in cc)
run_commands-IsSorted w (cmd ∷ cmds) entries written s h =
    run_commands_round w cmd cmds entries written s
      (λ entries' s' h'. run_commands-IsSorted w cmds entries' written s' h')
      (run_command w cmd entries) refl h

-- Whatever the commands and whatever the world gives them: where `cpio_commands` starts with no file, or
-- with entries that `load_from_data` read of some file, and writes the archive, what it writes is
-- `dump` of entries in key order.
pub cpio_commands-IsSorted :
    (w : World) (start : Option (Outcome Entries)) (cmds : List Bytes) (written : Bytes)
    → ((m : Entries) → start ≡ some (ok m) → (file : Bytes) × (load_from_data file ≡ some (ok m)))
    → cpio_commands w start cmds ≡ dumped written
    → (m : Entries) × IsSorted m × (written ≡ dump m)
unfolding cpio_commands
cpio_commands-IsSorted w none cmds written from h = run_commands-IsSorted w cmds [] written tt h
cpio_commands-IsSorted w (some (ok m)) cmds written from h =
    let (file, e) = from m refl in
    run_commands-IsSorted w cmds m written (load_from_data-IsSorted file m e) h
cpio_commands-IsSorted w (some err) cmds written from h = absurd (cc)
cpio_commands-IsSorted w (some panic) cmds written from h = absurd (cc)

-- ===== src/Boot/Cpio/Tests.antt =====
-- Runs of native/src/boot/cpio.rs, and the theorems at concrete inputs.
use magisk_t.Prelude.{
  starts_with, ◌≡◌, refl, ◌⊎◌, Bool, true, false, Option, none, some, [], ◌∷◌, arith, if◌then◌else◌,
  Bytes, codes, bytes_eq, ◌>>=◌, Outcome, ok, err, panic,
}
use magisk_t.BtreeMap.{get, insert, remove, retain, extend}
use magisk_t.Boot.Cpio.{Entries, norm_path}
use magisk_t.Prelude.Utf8.{is_utf8}
use magisk_t.Boot.Cpio.{is_regular}
use magisk_t.Boot.Cpio.Edit.{keep_outside, rm}
use magisk_t.Boot.Cpio.Backup.{
  recode, restored, take_out, take_all, rm_each, restore, backup_entry, record_entry,
  backup_changed, backup_loop, with_rmlist, backup,
}
use magisk_t.Boot.Cpio.Header.{x8u}
use magisk_t.Boot.Cpio.Archive.{load_from_data, dump}
use magisk_t.Boot.Cpio.Archive.Termination.{load_from_data_total}
use magisk_t.Boot.Cpio.Archive.RoundTrip.{AllStorable, load_from_data-dump}
use magisk_t.BtreeMap.Laws.{IsSorted}
use magisk_t.Boot.Cpio.Header.Numbers.{hex_value, as_outcome, x8u-hex_value}
use magisk_t.Boot.Cpio.Edit.{mv}
use magisk_t.Boot.Cpio.Edit.Removal.{mv_lem}
use magisk_t.Boot.Cpio.Status.{patch}
use magisk_t.Boot.Cpio.Status.Patching.{patched_entry, get-patch}
use magisk_t.Boot.Cpio.Display.{entry_text}
use magisk_t.Boot.Cpio.Extract.{FileSystem}
use magisk_t.Boot.Cpio.Commands
use magisk_t.Boot.Cpio.Commands.{World, dumped, cpio_commands, run_command, run_action}
use magisk_t.Boot.Cpio.Backup.{backup_dir}
use magisk_t.Boot.Cpio.Backup.Kept.{get-backup}

abbrev two_entries : Entries
two_entries =
    (
      codes "init",
      record {
        mode = 0o100750;
        uid = 0;
        gid = 2000;
        rdevmajor = 0;
        rdevminor = 0;
        content = codes "#!sh";
      },
    )
    ∷ (
      codes "sbin",
      record { mode = 0o40755; uid = 0; gid = 0; rdevmajor = 0; rdevminor = 0; content = [] },
    )
    ∷ []

load-dump_run : load_from_data (dump two_entries) ≡ some (ok two_entries)
unfolding load_from_data dump
load-dump_run = refl

truncated : load_from_data (codes "070701") ≡ some panic
unfolding load_from_data
truncated = refl

norm_path_run : norm_path (codes "//a/b//c/") ≡ codes "a/b/c"
unfolding norm_path
norm_path_run = refl

abbrev identity_coder : Bytes → Option Bytes
identity_coder v = some v

abbrev patched_entries : Entries
patched_entries =
    (
      codes "init",
      record {
        mode = 0o100750;
        uid = 0;
        gid = 2000;
        rdevmajor = 0;
        rdevminor = 0;
        content = codes "magisk";
      },
    )
    ∷ (
      codes "overlay.d",
      record { mode = 0o40755; uid = 0; gid = 0; rdevmajor = 0; rdevminor = 0; content = [] },
    )
    ∷ (
      codes "sbin",
      record { mode = 0o40755; uid = 0; gid = 0; rdevmajor = 0; rdevminor = 0; content = [] },
    )
    ∷ []

abbrev restored_after : Bool → Outcome Entries
restored_after skip = do
  b ← backup identity_coder patched_entries (ok two_entries) skip
  ok (restore identity_coder b)

backup-restore_run : restored_after false ≡ ok two_entries
unfolding backup restore backup_loop take_all rm_each norm_path rm insert remove retain extend
    keep_outside is_regular is_utf8 recode restored take_out backup_entry record_entry
    backup_changed with_rmlist
backup-restore_run = refl

two_entries-IsSorted : IsSorted two_entries
two_entries-IsSorted = ((refl, tt), (tt, tt))

two_entries-AllStorable : AllStorable two_entries
two_entries-AllStorable = (
  record {
    named = record {
      positive = (omega arith, (omega arith, (omega arith, (omega arith, tt))));
      utf8 = unfold is_utf8 in refl;
      not_dot = refl;
      not_dots = refl;
      not_trailer = refl;
      fits = omega arith;
    };
    room = record {
      mode = omega arith;
      uid = omega arith;
      gid = omega arith;
      rdevmajor = omega arith;
      rdevminor = omega arith;
    };
    small = omega arith;
  },
  (
    record {
      named = record {
        positive = (omega arith, (omega arith, (omega arith, (omega arith, tt))));
        utf8 = unfold is_utf8 in refl;
        not_dot = refl;
        not_dots = refl;
        not_trailer = refl;
        fits = omega arith;
      };
      room = record {
        mode = omega arith;
        uid = omega arith;
        gid = omega arith;
        rdevmajor = omega arith;
        rdevminor = omega arith;
      };
      small = omega arith;
    },
    tt,
  ),
)

load_from_data_total_example : (r : Outcome Entries) × (load_from_data (codes "070701") ≡ some r)
load_from_data_total_example = load_from_data_total (codes "070701")

load_from_data-dump_example : load_from_data (dump two_entries) ≡ some (ok two_entries)
load_from_data-dump_example =
    load_from_data-dump two_entries two_entries-IsSorted two_entries-AllStorable (omega arith)

x8u-hex_value_example : x8u (codes "0000AbcG") ≡ as_outcome (hex_value 0 (codes "0000AbcG"))
x8u-hex_value_example = x8u-hex_value (codes "0000AbcG") refl

mv_lem_example :
    ((get (norm_path (codes "/init")) two_entries ≡ none)
      × (mv two_entries (codes "/init") (codes "a") ≡ err))
    ⊎ ((after : Entries) × (mv two_entries (codes "/init") (codes "a") ≡ ok after)
        × ((k : Bytes)
            → get k after ≡ (
                if bytes_eq (norm_path (codes "a")) k
                then get (norm_path (codes "/init")) two_entries
                else if bytes_eq (norm_path (codes "/init")) k
                then none
                else get k two_entries)))
mv_lem_example = mv_lem two_entries (codes "/init") (codes "a")

abbrev no_verity : Entries
no_verity =
    (
      codes "fstab.x",
      record {
        mode = 0o100644;
        uid = 0;
        gid = 0;
        rdevmajor = 0;
        rdevminor = 0;
        content = codes "wait,verify";
      },
    )
    ∷ (
      codes "verity_key",
      record { mode = 0o100644; uid = 0; gid = 0; rdevmajor = 0; rdevminor = 0; content = [] },
    )
    ∷ []

get-patch_example :
    get (codes "fstab.x") (patch false true no_verity) ≡ elim (get (codes "fstab.x") no_verity) [
      | none ↦ none
      | some e ↦ patched_entry false true (codes "fstab.x") e
    ]
get-patch_example = get-patch false true no_verity (codes "fstab.x") ((refl, tt), (tt, tt))

abbrev no_file_system : FileSystem
no_file_system = record { make_parents = λ path. err; create = λ path made. err }

-- Every command that is no comment is read as `rm -r sbin`.
abbrev only_rm : World
only_rm = record {
  from_args = λ args. some (Commands.remove (codes "sbin") true);
  encoder = identity_coder;
  decoder = identity_coder;
  keep_verity = true;
  keep_force_encrypt = true;
  get_attr = λ path. err;
  load_from_file = λ path. err;
  file_system = no_file_system;
}

abbrev one_entry : Entries
one_entry =
    (
      codes "init",
      record {
        mode = 0o100750;
        uid = 0;
        gid = 2000;
        rdevmajor = 0;
        rdevminor = 0;
        content = codes "#!sh";
      },
    )
    ∷ []

cpio_commands_run :
    cpio_commands only_rm (some (ok two_entries)) (codes "# tidy" ∷ codes "rm -r sbin" ∷ [])
    ≡ dumped (dump one_entry)
unfolding cpio_commands run_command run_action rm remove retain keep_outside norm_path
cpio_commands_run = refl

entry_text_run :
    entry_text
      (λ n. codes "4 B")
      (record {
        mode = 0o100750;
        uid = 0;
        gid = 2000;
        rdevmajor = 0;
        rdevminor = 0;
        content = codes "#!sh";
      })
    ≡ codes "-rwxr-x---\t0\t2000\t4 B\t0:0"
unfolding entry_text
entry_text_run = refl

patched_entries-IsSorted : IsSorted patched_entries
patched_entries-IsSorted = ((refl, (refl, tt)), ((refl, tt), (tt, tt)))

get-backup_example :
    (after : Entries) × (backup identity_coder patched_entries (ok two_entries) false ≡ ok after)
    × ((k : Bytes) → starts_with k backup_dir ≡ false → get k after ≡ get k patched_entries)
get-backup_example =
    get-backup identity_coder patched_entries two_entries false patched_entries-IsSorted

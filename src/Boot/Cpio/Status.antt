-- ===== src/Boot/Cpio/Status.antt =====
-- `patch` and `test` of native/src/boot/cpio.rs.
pub mod Patching
use magisk_t.Prelude.{
  ℕ, ◌+◌, ◌-◌, ◌/◌, Bool, false, not, ◌&&◌, ◌||◌, Option, none, some, List, [], ◌∷◌, ◌++◌, ◌==◌,
  if◌then◌else◌, Bytes, codes, length, take, replicate, bytes_eq, starts_with,
}
use magisk_t.BtreeMap
use magisk_t.BtreeMap.{retain}
use magisk_t.Boot.Patch.{patch_verity, patch_encryption}
use magisk_t.Boot.Cpio.{CpioEntry, Entries, is_regular}
use magisk_t.Boot.Cpio.Edit.{exists}

-- `Vec::resize(len, 0)`
unfoldable pub resize : Bytes → ℕ → Bytes
resize v len = take len v ++ replicate (len - length v) 0

-- A patch in place, and the `resize` behind it where the length has changed. The patch routines
-- never run out of fuel (Patch.Matching).
unfoldable pub patched : (Bytes → Option (Bytes × ℕ)) → Bytes → Bytes
patched patch v = elim (patch v) [
  | none ↦ []
  | some (buf, len) ↦ if len == length v then buf else resize buf len
]

unfoldable pub is_fstab : Bool → Bool → Bytes → CpioEntry → Bool
is_fstab keep_verity keep_force_encrypt name e =
    (not keep_verity || not keep_force_encrypt)
    && is_regular e
    && not (starts_with name (codes ".backup"))
    && not (starts_with name (codes "twrp"))
    && not (starts_with name (codes "recovery"))
    && starts_with name (codes "fstab")

abbrev with_content : CpioEntry → Bytes → CpioEntry
with_content e c = record e { content = c }

-- `if !keep_verity { .. }` of the closure: `none` is its `return false`.
unfoldable pub strip_verity : Bool → Bool → Bytes → CpioEntry → Option CpioEntry
strip_verity keep_verity fstab name e =
    if keep_verity
    then some e
    else if fstab
    then some (with_content e (patched patch_verity e.content))
    else if bytes_eq name (codes "verity_key")
    then none
    else some e

unfoldable pub strip_encryption : Bool → Bool → CpioEntry → CpioEntry
strip_encryption keep_force_encrypt fstab e =
    if not keep_force_encrypt && fstab
    then with_content e (patched patch_encryption e.content)
    else e

unfoldable pub patch_entry : Bool → Bool → Bytes → CpioEntry → Option CpioEntry
patch_entry keep_verity keep_force_encrypt name e =
    let fstab = is_fstab keep_verity keep_force_encrypt name e in
    elim (strip_verity keep_verity fstab name e) [
      | none ↦ none
      | some e' ↦ some (strip_encryption keep_force_encrypt fstab e')
    ]

-- The two flags are `check_env("KEEPVERITY")` and `check_env("KEEPFORCEENCRYPT")`.
unfoldable pub patch : Bool → Bool → Entries → Entries
patch keep_verity keep_force_encrypt = retain (patch_entry keep_verity keep_force_encrypt)

-- `for file in [..] { if self.exists(file) { return code } }`
pub exists_any : Entries → List Bytes → Bool
exists_any entries [] = false
exists_any entries (f ∷ files) = exists entries f || exists_any entries files

abbrev pub magisk_patched : ℕ
magisk_patched = 1

abbrev pub unsupported_cpio : ℕ
unsupported_cpio = 2

abbrev pub unsupported_files : List Bytes
unsupported_files =
    codes "sbin/launch_daemonsu.sh"
    ∷ codes "sbin/su"
    ∷ codes "init.xposed.rc"
    ∷ codes "boot/sbin/launch_daemonsu.sh"
    ∷ []

abbrev pub patched_files : List Bytes
patched_files =
    codes ".backup/.magisk" ∷ codes "init.magisk.rc" ∷ codes "overlay/init.magisk.rc" ∷ []

unfoldable pub test : Entries → ℕ
unfolding exists_any
test entries =
    if exists_any entries unsupported_files
    then unsupported_cpio
    else if exists_any entries patched_files
    then magisk_patched
    else 0

-- ===== src/Boot/Payload.antt =====
-- native/src/boot/payload.rs: the image of one partition, taken out of an update payload that can be
-- sought. The manifest is decoded and data is decompressed by other code, which are parameters.
pub mod Image
pub mod Written
pub mod Contents
mod Tests
use magisk_t.Prelude.{
  ℕ, zero, suc, ◌+◌, ◌-◌, ◌*◌, ◌%◌, ◌^◌, Bool, not, ◌||◌, Option, none, some, List, [], ◌∷◌, ◌++◌,
  ltb, leb, ◌==◌, if◌then◌else◌, Bytes, codes, length, take, drop, replicate, is_empty, bytes_eq,
  ◌>>=◌, Outcome, ok, err,
}

abbrev pub u64 : ℕ
u64 = 2 ^ 64

pub data OpType : Type 0 where
  replace : OpType
  zeros : OpType
  replace_bz : OpType
  replace_xz : OpType
  other_type : OpType

pub record Extent : Type 0 where
  pub start_block : Option ℕ
  pub num_blocks : Option ℕ

pub record Operation : Type 0 where
  pub data_offset : Option ℕ
  pub data_length : Option ℕ
  pub type_pb : OpType
  pub dst_extents : List Extent

pub record Partition : Type 0 where
  pub partition_name : Bytes
  pub operations : List Operation

pub record Manifest : Type 0 where
  pub minor_version : ℕ
  pub block_size : ℕ
  pub partitions : List Partition

-- `check_fmt` with `get_decoder`, the protobuf reader, and whether the output can be made.
pub record Codecs : Type 0 where
  pub read_manifest : Bytes → Option Manifest
  pub decompress : Bytes → Option Bytes
  pub can_create : Bytes → Bool

-- `ok_or_else`
unfoldable pub required {ℓ} : {A : Type ℓ} → Option A → Outcome A
required none = err
required (some a) = ok a

-- `read_exact` at a position, where no bytes can be read even past the end, and a relative seek:
-- `len as i64` may be negative.
unfoldable pub read_at : Bytes → ℕ → ℕ → Outcome Bytes
read_at payload pos len =
    if len == 0 || leb (pos + len) (length payload) then ok (take len (drop pos payload)) else err

unfoldable pub skip : ℕ → ℕ → Outcome ℕ
skip pos len = let target = (pos + len) % u64 in if ltb target (2 ^ 63) then ok target else err

-- `read_u64::<BigEndian>` and `read_u32::<BigEndian>`
unfoldable pub from_be : ℕ → Bytes → ℕ
from_be n [] = n
from_be n (b ∷ bytes) = from_be (n * 256 + b) bytes

unfoldable pub find_partition : Bytes → List Partition → Option Partition
find_partition name [] = none
find_partition name (p ∷ partitions) =
    let rest = find_partition name partitions in
    if bytes_eq p.partition_name name then some p else rest

unfoldable pub choose_partition : Option Bytes → List Partition → Option Partition
unfolding find_partition
choose_partition (some name) partitions = find_partition name partitions
choose_partition none partitions = elim (find_partition (codes "init_boot") partitions) [
  | some boot ↦ some boot
  | none ↦ find_partition (codes "boot") partitions
]

-- `sort_by_key(|e| e.data_offset.unwrap_or(0))`, which is stable.
unfoldable pub sort_key : Operation → ℕ
sort_key op = elim op.data_offset [ none ↦ 0 | some offset ↦ offset ]

unfoldable pub insert_op : Operation → List Operation → List Operation
unfolding sort_key
insert_op op [] = op ∷ []
insert_op op (next ∷ ops) =
    let later = insert_op op ops in
    if leb (sort_key op) (sort_key next) then op ∷ next ∷ ops else next ∷ later

unfoldable pub sort_ops : List Operation → List Operation
unfolding insert_op
sort_ops [] = []
sort_ops (op ∷ ops) = insert_op op (sort_ops ops)

-- `seek` and `write_all` on the output, whose gaps read as zeros.
unfoldable pub write_from : ℕ → Bytes → Bytes → Bytes
write_from zero written image = written ++ drop (length written) image
write_from (suc offset) written [] = 0 ∷ write_from offset written []
write_from (suc offset) written (b ∷ image) = b ∷ write_from offset written image

unfoldable pub write_at : ℕ → Bytes → Bytes → Bytes
unfolding write_from
write_at offset written image = if is_empty written then image else write_from offset written image

unfoldable pub block_offset : ℕ → Extent → Outcome ℕ
unfolding required
block_offset block_size ext = do start ← required ext.start_block; ok (start * block_size % u64)

-- `Type::ZERO`: as many zeros as the extent has blocks.
unfoldable pub zero_extents : ℕ → List Extent → Bytes → Outcome Bytes
unfolding required block_offset write_at
zero_extents block_size [] image = ok image
zero_extents block_size (ext ∷ exts) image = do
  offset ← block_offset block_size ext
  count ← required ext.num_blocks
  zero_extents block_size exts (write_at offset (replicate count 0) image)

unfoldable pub first_extent : List Extent → Outcome Extent
first_extent [] = err
first_extent (ext ∷ exts) = ok ext

unfoldable pub write_contents : Codecs → ℕ → Operation → ℕ → Bytes → Bytes → Outcome Bytes
unfolding required write_at zero_extents
write_contents c block_size op offset contents image = elim op.type_pb [
  | replace ↦ ok (write_at offset contents image)
  | zeros ↦ zero_extents block_size op.dst_extents image
  | replace_bz ↦ do plain ← required (c.decompress contents); ok (write_at offset plain image)
  | replace_xz ↦ do plain ← required (c.decompress contents); ok (write_at offset plain image)
  | other_type ↦ err
]

-- What an operation does to the image with the data that was read for it.
unfoldable pub write_op : Codecs → ℕ → Operation → Bytes → Bytes → Outcome Bytes
unfolding block_offset write_contents first_extent
write_op c block_size op contents image = do
  ext ← first_extent op.dst_extents
  offset ← block_offset block_size ext
  write_contents c block_size op offset contents image

-- The loop, with the position in the payload and `curr_data_offset`.
unfoldable pub run_ops : Codecs → Bytes → ℕ → List Operation → ℕ → ℕ → Bytes → Outcome Bytes
unfolding required read_at skip write_op
run_ops c payload block_size [] pos curr image = ok image
run_ops c payload block_size (op ∷ ops) pos curr image = do
  len ← required op.data_length
  offset ← required op.data_offset
  start ← skip pos ((offset + u64 - curr) % u64)
  contents ← read_at payload start len
  after ← write_op c block_size op contents image
  run_ops c payload block_size ops (start + len) ((offset + len) % u64) after

unfoldable pub check : Bool → Outcome Bool
check test = if test then ok test else err

-- The header: the manifest, the position behind it, and the length of the signature there.
unfoldable pub read_header : Codecs → Bytes → Outcome (Manifest × ℕ × ℕ)
unfolding required read_at from_be check
read_header c payload = do
  magic ← read_at payload 0 4
  is_payload ← check (bytes_eq magic (codes "CrAU"))
  version ← read_at payload 4 8
  supported ← check (from_be 0 version == 2)
  manifest_len ← read_at payload 12 8
  has_manifest ← check (not (from_be 0 manifest_len == 0))
  manifest_sig_len ← read_at payload 20 4
  has_signature ← check (not (from_be 0 manifest_sig_len == 0))
  buf ← read_at payload 24 (from_be 0 manifest_len)
  manifest ← required (c.read_manifest buf)
  is_full ← check (manifest.minor_version == 0)
  ok (manifest, 24 + from_be 0 manifest_len, from_be 0 manifest_sig_len)

unfoldable pub out_name : Option Bytes → Partition → Bytes
out_name none partition = partition.partition_name ++ codes ".img"
out_name (some out_path) partition = out_path

-- The name of the output file, and what is written to it.
unfoldable pub extract_boot_from_payload :
    Codecs → Bytes → Option Bytes → Option Bytes → Outcome (Bytes × Bytes)
unfolding required skip check choose_partition sort_ops run_ops read_header out_name
extract_boot_from_payload c payload partition_name out_path = do
  (manifest, pos, manifest_sig_len) ← read_header c payload
  partition ← required (choose_partition partition_name manifest.partitions)
  created ← check (c.can_create (out_name out_path partition))
  base ← skip pos manifest_sig_len
  image ← run_ops c payload manifest.block_size (sort_ops partition.operations) base 0 []
  ok (out_name out_path partition, image)

-- ===== src/Boot/Payload/Tests.antt =====
-- Runs of native/src/boot/payload.rs, and the theorems at concrete inputs.
use magisk_t.Prelude.{
  ℕ, ◌+◌, ◌≡◌, refl, inr, true, none, some, List, [], ◌∷◌, ◌++◌, arith, Bytes, codes, replicate, ok,
  err,
}
use magisk_t.Boot.Payload.{
  replace, Extent, Operation, Partition, Codecs, first_extent, run_ops, extract_boot_from_payload,
}
use magisk_t.Boot.Payload.Image.{direct_ops, run_ops-direct}
use magisk_t.Boot.Payload.Written.{at}
use magisk_t.Boot.Payload.Contents.{Placed, out_offset, Misses, Placed_unique, run_ops-at}

abbrev extent : ℕ → ℕ → Extent
extent start count = record { start_block = some start; num_blocks = some count }

abbrev write_two : ℕ → ℕ → Operation
write_two from_offset start = record {
  data_offset = some from_offset;
  data_length = some 2;
  type_pb = replace;
  dst_extents = extent start 1 ∷ [];
}

-- Two operations that overlap in the payload.
abbrev first_op : Operation
first_op = write_two 0 1

abbrev second_op : Operation
second_op = write_two 1 0

abbrev boot_part : Bytes → Partition
boot_part name = record { partition_name = name; operations = second_op ∷ first_op ∷ [] }

-- A manifest of one byte, which stands for two partitions.
codecs : Codecs
codecs = record {
  read_manifest = λ bytes. some (record {
    minor_version = 0;
    block_size = 2;
    partitions = boot_part (codes "boot") ∷ boot_part (codes "init_boot") ∷ [];
  });
  decompress = λ bytes. none;
  can_create = λ path. true;
}

abbrev header : Bytes
header = codes "CrAU" ++ replicate 7 0 ++ 2 ∷ replicate 7 0 ++ 1 ∷ replicate 3 0 ++ 1 ∷ codes "MS"

abbrev payload : Bytes
payload = header ++ codes "xyz"

extract_run :
    extract_boot_from_payload codecs payload none none ≡ ok (codes "init_boot.img", codes "yzxy")
unfolding extract_boot_from_payload codecs
extract_run = refl

not_payload_run : extract_boot_from_payload codecs (codes "CrAV") none none ≡ err
unfolding extract_boot_from_payload
not_payload_run = refl

abbrev ops : List Operation
ops = first_op ∷ second_op ∷ []

run_ops-direct_example :
    run_ops codecs payload 2 ops (26 + 0) 0 [] ≡ direct_ops codecs payload 2 26 ops []
run_ops-direct_example =
    run_ops-direct codecs payload 2 26 ops 0 [] (omega arith) (omega arith)
      (omega arith, (omega arith, tt))

image_run : run_ops codecs payload 2 ops 26 0 [] ≡ ok (codes "yzxy")
unfolding run_ops codecs
image_run = refl

first_placed : Placed 2 first_op
first_placed = record {
  len = 2;
  offset = 0;
  ext = extent 1 1;
  start = 1;
  has_len = refl;
  has_offset = refl;
  has_ext = unfold first_extent in refl;
  has_start = refl;
}

second_placed : Placed 2 second_op
second_placed = record {
  len = 2;
  offset = 1;
  ext = extent 0 1;
  start = 0;
  has_len = refl;
  has_offset = refl;
  has_ext = unfold first_extent in refl;
  has_start = refl;
}

second-Misses : Misses 2 2 second_op
unfolding second_placed
second-Misses p =
    let (len, offset, start) = Placed_unique 2 second_op second_placed p in
    inr (omega (arith, len, start))

run_ops-at_example :
    at (out_offset first_placed + 0) (codes "yzxy") ≡ at (26 + first_placed.offset + 0) payload
run_ops-at_example =
    run_ops-at codecs payload 2 26 [] first_op (second_op ∷ []) (codes "yzxy") first_placed 0
      (omega arith) (omega arith) (omega arith, (omega arith, tt)) (refl, (refl, tt)) image_run
      (unfold first_placed in omega arith) (unfold first_placed in (second-Misses, tt))

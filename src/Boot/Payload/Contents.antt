-- ===== src/Boot/Payload/Contents.antt =====
-- What an image holds that is made of whole blocks of the payload (native/src/boot/payload.rs).
use magisk_t.Prelude.{
  ℕ, ◌+◌, ◌*◌, ◌%◌, ◌^◌, ◌<◌, ◌≡◌, refl, sym, ap, subst, ◌∙◌, inl, inr, Option, some, List, [], ◌∷◌,
  ◌++◌, arith, Bytes, length, take, drop, All, length-drop, length-take, bind-eq-ok, ok,
}
use magisk_t.Boot.Payload.{
  u64, replace, Extent, Operation, Codecs, required, write_at, block_offset, first_extent,
  write_contents, write_op, run_ops,
}
use magisk_t.Boot.Payload.Image.{
  direct_ops, Fits, read_direct, required-eq, read_direct_within, InRange, run_ops-direct,
}
use magisk_t.Boot.Payload.Written.{at, at-drop, at-take, Outside, at-write_at, at-write_at_other}

-- Where an operation takes its data from, and where it puts it.
pub record Placed (block_size : ℕ) (op : Operation) : Type 0 where
  pub len : ℕ
  pub offset : ℕ
  pub ext : Extent
  pub start : ℕ
  pub has_len : op.data_length ≡ some len
  pub has_offset : op.data_offset ≡ some offset
  pub has_ext : first_extent op.dst_extents ≡ ok ext
  pub has_start : ext.start_block ≡ some start

abbrev pub out_offset : {block_size : ℕ} {op : Operation} → Placed block_size op → ℕ
out_offset {block_size} p = p.start * block_size % u64

-- The operation writes nothing over a position of the image.
abbrev pub Misses : ℕ → ℕ → Operation → Type 0
Misses block_size i op = (p : Placed block_size op) → Outside i (out_offset p) p.len

block_offset-eq :
    (block_size : ℕ) (ext : Extent) (target : ℕ)
    → block_offset block_size ext ≡ ok target
    → (start : ℕ) × (ext.start_block ≡ some start) × (target ≡ start * block_size % u64)
unfolding block_offset
block_offset-eq block_size ext target e =
    let (start, e_start, done) = bind-eq-ok (required ext.start_block) _ e in
    (start, required-eq ext.start_block start e_start, cc done)

module _ (c : Codecs) (block_size : ℕ) (op : Operation) (contents image after : Bytes)
    (is_replace : op.type_pb ≡ replace) where
  write_contents-replace :
      (target : ℕ)
      → write_contents c block_size op target contents image ≡ ok after
      → write_at target contents image ≡ after
  unfolding write_contents
  write_contents-replace target e =
      let same : write_contents c block_size op target contents image
          ≡ ok (write_at target contents image) =
        rw (is_replace, write_contents) refl in
      cc (e, same)

  write_op-replace :
      write_op c block_size op contents image ≡ ok after
      → (ext : Extent) × (start : ℕ) × (first_extent op.dst_extents ≡ ok ext)
        × (ext.start_block ≡ some start)
        × (write_at (start * block_size % u64) contents image ≡ after)
  unfolding write_op
  write_op-replace e =
      let (ext, e_ext, e1) = bind-eq-ok (first_extent op.dst_extents) _ e in
      let (target, e_target, e2) = bind-eq-ok (block_offset block_size ext) _ e1 in
      let (start, e_start, there) = block_offset-eq block_size ext target e_target in
      (
        ext,
        start,
        e_ext,
        e_start,
        subst (λ x. write_at x contents image ≡ after) there (write_contents-replace target e2),
      )

module _ (c : Codecs) (payload : Bytes) (block_size base : ℕ) where
  -- The first operation of a run that succeeds.
  first_write :
      (op : Operation) (ops : List Operation) (image final : Bytes)
      → op.type_pb ≡ replace
      → direct_ops c payload block_size base (op ∷ ops) image ≡ ok final
      → (p : Placed block_size op) × Fits payload (base + p.offset) p.len
        × (direct_ops c payload block_size base ops
              (write_at (out_offset p) (take p.len (drop (base + p.offset) payload)) image)
            ≡ ok final)
  unfolding direct_ops
  first_write op ops image final is_replace e =
      let (len, e_len, e1) = bind-eq-ok (required op.data_length) _ e in
      let (offset, e_offset, e2) = bind-eq-ok (required op.data_offset) _ e1 in
      let (contents, e_contents, e3) = bind-eq-ok (read_direct payload (base + offset) len) _ e2 in
      let (after, e_after, e4) = bind-eq-ok (write_op c block_size op contents image) _ e3 in
      let (ext, start, e_ext, e_start, written) =
        write_op-replace c block_size op contents image after is_replace e_after in
      let (fits, same) = read_direct_within payload contents (base + offset) len e_contents in
      let p : Placed block_size op = record {
        len = len;
        offset = offset;
        ext = ext;
        start = start;
        has_len = required-eq op.data_length len e_len;
        has_offset = required-eq op.data_offset offset e_offset;
        has_ext = e_ext;
        has_start = e_start;
      } in
      let result : direct_ops c payload block_size base ops
            (write_at (start * block_size % u64) contents image)
          ≡ ok final =
        subst (λ x. direct_ops c payload block_size base ops x ≡ ok final) (sym written) e4 in
      (
        p,
        fits,
        subst
            (λ x.
              direct_ops c payload block_size base ops (write_at (start * block_size % u64) x image)
              ≡ ok final)
            same result,
      )

  length_slice : (pos len : ℕ) → Fits payload pos len → length (take len (drop pos payload)) ≡ len
  length_slice pos len (inl nothing) = omega (arith, nothing, length-take len (drop pos payload))
  length_slice pos len (inr inside) =
      omega (arith, inside, length-take len (drop pos payload), length-drop pos payload)

  -- A position that no operation writes keeps its byte.
  at-missed :
      (i : ℕ) (ops : List Operation) (image final : Bytes)
      → All (λ op. op.type_pb ≡ replace) ops
      → All (Misses block_size i) ops
      → direct_ops c payload block_size base ops image ≡ ok final
      → at i final ≡ at i image
  at-missed i [] image final replaces misses e = unfold direct_ops in cc e
  at-missed i (op ∷ ops) image final (is_replace, replaces) (missed, misses) e =
      let (p, fits, rest) = first_write op ops image final is_replace e in
      let contents = take p.len (drop (base + p.offset) payload) in
      at-missed i ops (write_at (out_offset p) contents image) final replaces misses rest
      ∙ at-write_at_other (out_offset p) i contents image (
          subst (Outside i (out_offset p)) (sym (length_slice (base + p.offset) p.len fits))
            (missed p))

  -- What an operation writes is in the image, if none behind it writes there.
  at-written :
      (before : List Operation) (op : Operation) (ops : List Operation) (image final : Bytes)
      (j : ℕ)
      → All (λ op. op.type_pb ≡ replace) (before ++ op ∷ ops)
      → direct_ops c payload block_size base (before ++ op ∷ ops) image ≡ ok final
      → (p : Placed block_size op) × (j < p.len
          → All (Misses block_size (out_offset p + j)) ops
          → at (out_offset p + j) final ≡ at (base + p.offset + j) payload)
  at-written (first ∷ before) op ops image final j (is_replace, replaces) e =
      let (p, fits, rest) = first_write first (before ++ op ∷ ops) image final is_replace e in
      at-written before op ops _ final j replaces rest
  at-written [] op ops image final j (is_replace, replaces) e =
      let (p, fits, rest) = first_write op ops image final is_replace e in
      let pos = base + p.offset in
      let contents = take p.len (drop pos payload) in
      let long = length_slice pos p.len fits in
      (
        p,
        λ h misses.
            at-missed (out_offset p + j) ops (write_at (out_offset p) contents image) final replaces
              misses rest
            ∙ at-write_at (out_offset p) j contents image (omega (arith, long, h))
            ∙ at-take j p.len (drop pos payload) h
            ∙ at-drop j pos payload,
      )

some_same : {a b : ℕ} (o : Option ℕ) → o ≡ some a → o ≡ some b → a ≡ b
some_same o e f = cc (e, f)

pub Placed_unique :
    (block_size : ℕ) (op : Operation) (p q : Placed block_size op)
    → (p.len ≡ q.len) × (p.offset ≡ q.offset) × (p.start ≡ q.start)
Placed_unique block_size op p q =
    let same_ext : p.ext ≡ q.ext = cc (p.has_ext, q.has_ext) in
    let start : q.ext.start_block ≡ some p.start =
      subst (λ x. x.start_block ≡ some p.start) same_ext p.has_start in
    (
      some_same op.data_length p.has_len q.has_len,
      some_same op.data_offset p.has_offset q.has_offset,
      some_same q.ext.start_block start q.has_start,
    )

-- Of operations of the type REPLACE alone that run without an error: the bytes of an operation
-- stand in the image at its own place, unless an operation behind it in the list writes there.
-- The payload has less than 2^63 bytes, and offsets stay below 2^64 behind the header.
pub run_ops-at :
    (c : Codecs) (payload : Bytes) (block_size base : ℕ) (before : List Operation) (op : Operation)
    (ops : List Operation) (final : Bytes) (p : Placed block_size op) (j : ℕ)
    → length payload < 2 ^ 63
    → base < 2 ^ 63
    → All (InRange base) (before ++ op ∷ ops)
    → All (λ op. op.type_pb ≡ replace) (before ++ op ∷ ops)
    → run_ops c payload block_size (before ++ op ∷ ops) base 0 [] ≡ ok final
    → j < p.len
    → All (Misses block_size (out_offset p + j)) ops
    → at (out_offset p + j) final ≡ at (base + p.offset + j) payload
run_ops-at c payload block_size base before op ops final p j small near in_range replaces e h
      misses =
    let plus_zero : base + 0 ≡ base = omega arith in
    let direct =
      run_ops-direct c payload block_size base (before ++ op ∷ ops) 0 [] small (omega arith)
        in_range in
    let (q, written) =
      at-written c payload block_size base before op ops [] final j replaces
        (sym direct ∙ rw (plus_zero) e) in
    let (len, offset, start) = Placed_unique block_size op q p in
    let there : out_offset q ≡ out_offset p = ap (λ x. x * block_size % u64) start in
    subst (λ x. at (out_offset p + j) final ≡ at (base + x + j) payload) offset
      (subst (λ x. at (x + j) final ≡ at (base + q.offset + j) payload) there
        (written (omega (arith, len, h))
          (subst (λ x. All (Misses block_size (x + j)) ops) (sym there) misses)))

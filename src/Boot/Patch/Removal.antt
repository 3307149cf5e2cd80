-- ===== src/Boot/Patch/Removal.antt =====
-- `remove_pattern` of native/src/boot/patch.rs against a description with no write cursor.
use magisk_t.Prelude.{
  ℕ, zero, suc, ◌+◌, ◌-◌, ◌≤◌, ◌<◌, ◌≡◌, refl, sym, ap, ◌∙◌, inl, inr, true, Option, none, some, [],
  ◌∷◌, ◌++◌, append-nil, append_assoc, arith, ltb, leb, Option-cases, Bytes, length, take, drop,
  replicate, length-append, length-drop, length-take, take-append, drop-append,
}
use magisk_t.Boot.Patch.{
  RemoveState, copy_byte, skip_match, keep_byte, remove_loop, fill_rest, remove_pattern,
}

-- What is left when every match is dropped where it stands, from left to right.
unfoldable pub strip : (Bytes → Option ℕ) → ℕ → Bytes → Bytes
strip pattern_matcher zero s = []
strip pattern_matcher (suc fuel) [] = []
strip pattern_matcher (suc fuel) (c ∷ s) = elim (pattern_matcher (c ∷ s)) [
  | some len ↦ strip pattern_matcher fuel (drop len (c ∷ s))
  | none ↦ c ∷ strip pattern_matcher fuel s
]

-- What was kept, with zeros up to the old size, and the new size.
abbrev pub padded : Bytes → Bytes → Bytes × ℕ
padded buf kept = (kept ++ replicate (length buf - length kept) 0, length kept)

-- A matcher never matches nothing and never past the end.
abbrev pub IsMatcher : (Bytes → Option ℕ) → Type 0
IsMatcher m = (s : Bytes) (n : ℕ) → m s ≡ some n → (0 < n) × (n ≤ length s)

-- The loop's state: what was written, what is stale, and what is still to be read.
abbrev state : Bytes → Bytes → Bytes → RemoveState
state pre gap rest = record {
  buf = pre ++ (gap ++ rest);
  write = length pre;
  read = length pre + length gap;
  sz = length pre + length rest;
}

RemoveState-path :
    {b b' : Bytes} {w w' r r' z z' : ℕ}
    → b ≡ b'
    → w ≡ w'
    → r ≡ r'
    → z ≡ z'
    → ◌≡◌ {A = RemoveState}
        (record { buf = b; write = w; read = r; sz = z })
        (record { buf = b'; write = w'; read = r'; sz = z' })
RemoveState-path p q r s = λ i. record { buf = p i; write = q i; read = r i; sz = s i }

drop_two : (pre gap rest : Bytes) → drop (length pre + length gap) (pre ++ (gap ++ rest)) ≡ rest
drop_two pre gap rest =
    rw (← length-append pre gap, ← append_assoc pre gap rest) (drop-append (pre ++ gap) rest)

length_three :
    (pre gap rest : Bytes) → length (pre ++ (gap ++ rest)) ≡ length pre + length gap + length rest
length_three pre gap rest = omega (arith, length-append pre (gap ++ rest), length-append gap rest)

-- The stale bytes after one byte is copied down.
abbrev shift : Bytes → ℕ → Bytes
shift [] c = []
shift (g ∷ gap) c = gap ++ c ∷ []

drop_past : (pre rest : Bytes) → drop (suc (length pre)) (pre ++ rest) ≡ drop 1 rest
drop_past [] rest = refl
drop_past (x ∷ pre) rest = drop_past pre rest

drop-shift : (gap : Bytes) (c : ℕ) (rest : Bytes) → drop 1 (gap ++ c ∷ rest) ≡ shift gap c ++ rest
drop-shift [] c rest = refl
drop-shift (g ∷ gap) c rest = sym (append_assoc gap (c ∷ []) rest)

copy_byte-shift :
    (pre gap : Bytes) (c : ℕ) (rest : Bytes)
    → copy_byte (pre ++ (gap ++ c ∷ rest)) (length pre) (length pre + length gap)
      ≡ (pre ++ c ∷ []) ++ (shift gap c ++ rest)
unfolding copy_byte
copy_byte-shift pre gap c rest =
    rw (drop_two pre gap (c ∷ rest), copy_byte)
      (rw (take-append pre, drop_past pre, drop-shift gap c rest)
        (sym (append_assoc pre (c ∷ []) _)))

length-shift : (gap : Bytes) (c : ℕ) → length (shift gap c) ≡ length gap
length-shift [] c = refl
length-shift (g ∷ gap) c = omega (arith, length-append gap (c ∷ []))

remove_loop-end :
    (m : Bytes → Option ℕ) (fuel : ℕ) (pre gap : Bytes)
    → remove_loop m (suc fuel) (state pre gap []) ≡ some (state pre gap [])
unfolding remove_loop
remove_loop-end m fuel pre gap = ground (arith, length_three pre gap [])

is_reading :
    (pre gap : Bytes) (c : ℕ) (rest : Bytes)
    → ltb (length pre + length gap) (length (pre ++ (gap ++ c ∷ rest))) ≡ true
is_reading pre gap c rest = ground (arith, length_three pre gap (c ∷ rest))

take-drop : (n : ℕ) (s : Bytes) → take n s ++ drop n s ≡ s
take-drop zero s = refl
take-drop (suc n) [] = refl
take-drop (suc n) (x ∷ s) = ap (◌∷◌ x) (take-drop n s)

skip_match-state :
    (pre gap rest : Bytes) (n : ℕ)
    → n ≤ length rest
    → skip_match (state pre gap rest) n ≡ state pre (gap ++ take n rest) (drop n rest)
skip_match-state pre gap rest n h =
    RemoveState-path (ap (◌++◌ pre) (sym (append_assoc gap _ _ ∙ ap (◌++◌ gap) (take-drop n rest))))
      refl (omega (arith, length-append gap (take n rest), length-take n rest))
      (omega (arith, length-drop n rest))

keep_byte-state :
    (pre gap : Bytes) (c : ℕ) (rest : Bytes)
    → keep_byte (state pre gap (c ∷ rest)) ≡ state (pre ++ c ∷ []) (shift gap c) rest
keep_byte-state pre gap c rest =
    RemoveState-path (copy_byte-shift pre gap c rest) (omega (arith, length-append pre (c ∷ [])))
      (omega (arith, length-append pre (c ∷ []), length-shift gap c))
      (omega (arith, length-append pre (c ∷ [])))

module _ (m : Bytes → Option ℕ) (fuel : ℕ) where
  remove_loop-some :
      (s : RemoveState) (n : ℕ)
      → ltb s.read (length s.buf) ≡ true
      → m (drop s.read s.buf) ≡ some n
      → remove_loop m (suc fuel) s ≡ remove_loop m fuel (skip_match s n)
  unfolding remove_loop
  remove_loop-some s n p e = rw (p, e, remove_loop)

  remove_loop-none :
      (s : RemoveState)
      → ltb s.read (length s.buf) ≡ true
      → m (drop s.read s.buf) ≡ none
      → remove_loop m (suc fuel) s ≡ remove_loop m fuel (keep_byte s)
  unfolding remove_loop
  remove_loop-none s p e = rw (p, e, remove_loop)

  remove_loop-skip :
      (pre gap : Bytes) (c : ℕ) (rest : Bytes) (n : ℕ)
      → m (c ∷ rest) ≡ some n
      → n ≤ length (c ∷ rest)
      → remove_loop m (suc fuel) (state pre gap (c ∷ rest))
        ≡ remove_loop m fuel (state pre (gap ++ take n (c ∷ rest)) (drop n (c ∷ rest)))
  remove_loop-skip pre gap c rest n e h =
      remove_loop-some (state pre gap (c ∷ rest)) n (is_reading pre gap c rest)
        (ap m (drop_two pre gap (c ∷ rest)) ∙ e)
      ∙ ap (remove_loop m fuel) (skip_match-state pre gap (c ∷ rest) n h)

  remove_loop-keep :
      (pre gap : Bytes) (c : ℕ) (rest : Bytes)
      → m (c ∷ rest) ≡ none
      → remove_loop m (suc fuel) (state pre gap (c ∷ rest))
        ≡ remove_loop m fuel (state (pre ++ c ∷ []) (shift gap c) rest)
  remove_loop-keep pre gap c rest e =
      remove_loop-none (state pre gap (c ∷ rest)) (is_reading pre gap c rest)
        (ap m (drop_two pre gap (c ∷ rest)) ∙ e)
      ∙ ap (remove_loop m fuel) (keep_byte-state pre gap c rest)

-- How the loop ends: everything was read, and what was written is `strip` of it.
record Ends (m : Bytes → Option ℕ) (fuel : ℕ) (pre gap rest : Bytes) : Type 0 where
  kept : Bytes
  stale : Bytes
  ends : remove_loop m fuel (state pre gap rest) ≡ some (state kept stale [])
  kept_is : kept ≡ pre ++ strip m fuel rest
  size : length pre + length gap + length rest ≡ length kept + length stale

remove_loop-Ends :
    (m : Bytes → Option ℕ)
    → IsMatcher m
    → (fuel : ℕ) (pre gap rest : Bytes) → length rest < fuel
    → Ends m fuel pre gap rest
remove_loop-Ends m good zero pre gap rest h = absurd (omega arith)
remove_loop-Ends m good (suc fuel) pre gap [] h = record {
  kept = pre;
  stale = gap;
  ends = remove_loop-end m fuel pre gap;
  kept_is = unfold strip in sym (append-nil pre);
  size = omega arith;
}
remove_loop-Ends m good (suc fuel) pre gap (c ∷ rest) h = elim (Option-cases (m (c ∷ rest))) [
  | inl e ↦
      let r = remove_loop-Ends m good fuel (pre ++ c ∷ []) (shift gap c) rest (omega arith) in
      record {
        kept = r.kept;
        stale = r.stale;
        ends = remove_loop-keep m fuel pre gap c rest e ∙ r.ends;
        kept_is =
            r.kept_is ∙ append_assoc pre (c ∷ []) _ ∙ ap (◌++◌ pre) (unfold strip in rw (e, strip));
        size = omega (arith, r.size, length-append pre (c ∷ []), length-shift gap c);
      }
  | inr (n, e) ↦
      let fits = good (c ∷ rest) n e in
      let r =
        remove_loop-Ends m good fuel pre (gap ++ take n (c ∷ rest)) (drop n (c ∷ rest))
          (omega (arith, length-drop n (c ∷ rest))) in
      record {
        kept = r.kept;
        stale = r.stale;
        ends = remove_loop-skip m fuel pre gap c rest n e fits.1 ∙ r.ends;
        kept_is = r.kept_is ∙ ap (◌++◌ pre) (unfold strip in rw (e, strip));
        size = omega (
          arith,
          r.size,
          length-append gap (take n (c ∷ rest)),
          length-drop n (c ∷ rest),
          length-take n (c ∷ rest),
        );
      }
]

module _ (kept stale : Bytes) (n : ℕ) (size : n ≡ length kept + length stale) where
  fill_rest-kept :
      fill_rest (kept ++ (stale ++ [])) (length kept) ≡ kept ++ replicate (n - length kept) 0
  unfolding fill_rest
  fill_rest-kept =
      let total = length_three kept stale [] in
      let fits : leb (length kept) (length (kept ++ (stale ++ []))) ≡ true =
        ground (arith, total) in
      let rest : length (kept ++ (stale ++ [])) - length kept ≡ n - length kept =
        omega (arith, total, size) in
      rw fits (rw (take-append kept, rest))

  result-kept :
      ◌≡◌ {A = Option (Bytes × ℕ)}
        (some (fill_rest (kept ++ (stale ++ [])) (length kept), length kept + 0))
        (some (kept ++ replicate (n - length kept) 0, length kept))
  result-kept =
      let zero_more : length kept + 0 ≡ length kept = omega arith in
      λ i. some (fill_rest-kept i, zero_more i)

-- For every matcher that matches at least one byte and never past the end, the in-place loop
-- ends, and leaves what `strip` keeps, zeros behind it up to the old size, and the number of
-- bytes kept as the returned size.
pub remove_pattern-eq-strip :
    (m : Bytes → Option ℕ) (buf : Bytes)
    → IsMatcher m
    → remove_pattern m buf ≡ some (padded buf (strip m (length buf + 1) buf))
unfolding remove_pattern
remove_pattern-eq-strip m buf good =
    let r = remove_loop-Ends m good (length buf + 1) [] [] buf (omega arith) in
    let first : RemoveState = record { buf = buf; write = 0; read = 0; sz = length buf } in
    let start : first ≡ state [] [] buf = RemoveState-path refl refl refl (omega arith) in
    let k : strip m (length buf + 1) buf ≡ r.kept = sym r.kept_is in
    rw (ap (remove_loop m (length buf + 1)) start ∙ r.ends, remove_pattern)
      (rw k (result-kept r.kept r.stale (length buf) (omega (arith, r.size))))

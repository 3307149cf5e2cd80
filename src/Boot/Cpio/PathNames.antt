-- ===== src/Boot/Cpio/PathNames.antt =====
-- `norm_path` of native/src/boot/cpio.rs: what it returns, and what it leaves alone.
use magisk_t.Prelude.{
  ℕ, ◌<◌, ◌≡◌, refl, sym, ap, ap₂, subst, ◌∙◌, ◌≢◌, ◌⊎◌, inl, inr, Bool, true, false, not, ◌&&◌,
  List, [], ◌∷◌, ◌++◌, append-nil, arith, ◌==◌, ==_iff, Bool-cases, Bytes, length, All, contains,
  prepend_first, split,
}
use magisk_t.Boot.Cpio.{non_empty, join, norm_path}

-- `fresh`: the scan stands at the start of a part. A `/` may not stand there, nor the end.
unfoldable pub clean : Bool → Bytes → Bool
clean fresh [] = not fresh
clean fresh (c ∷ s) = not (fresh && c == b'/') && clean (c == b'/') s

-- No `/` at either end, and no two in a row.
abbrev pub IsNormal : Bytes → Type 0
IsNormal p = (p ≡ []) ⊎ (clean true p ≡ true)

abbrev NonEmpty : Bytes → Type 0
NonEmpty w = 0 < length w

abbrev NoSlash : Bytes → Type 0
NoSlash w = contains w b'/' ≡ false

abbrev Parts : List Bytes → Type 0
Parts = All (λ w. NonEmpty w × NoSlash w)

clean_part :
    (w s : Bytes) (fresh : Bool)
    → NoSlash w
    → clean false s ≡ true
    → NonEmpty w
    → clean fresh (w ++ s) ≡ true
unfolding clean
clean_part [] s fresh n c e = absurd (omega arith)
clean_part (x ∷ []) s fresh n c e = ground arith
clean_part (x ∷ y ∷ w) s fresh n c e = ground (arith, clean_part (y ∷ w) s false)

clean-join : (w : Bytes) (ws : List Bytes) → Parts (w ∷ ws) → clean true (join (w ∷ ws)) ≡ true
unfolding join clean
clean-join w [] p =
    subst (λ s. clean true s ≡ true) (append-nil w) (clean_part w [] true p.0.1 refl p.0.0)
clean-join w (v ∷ ws) p = clean_part w (b'/' ∷ join (v ∷ ws)) true p.0.1 (clean-join v ws p.1) p.0.0

non_empty-Parts : (ws : List Bytes) → All NoSlash ws → Parts (non_empty ws)
unfolding non_empty
non_empty-Parts [] h = tt
non_empty-Parts ([] ∷ ws) h = non_empty-Parts ws h.1
non_empty-Parts ((c ∷ w) ∷ ws) h = ((omega arith, h.0), non_empty-Parts ws h.1)

prepend_first-NoSlash :
    (c : ℕ) (ws : List Bytes)
    → (c == b'/') ≡ false
    → All NoSlash ws
    → All NoSlash (prepend_first c ws)
prepend_first-NoSlash c [] h p = (rw h, tt)
prepend_first-NoSlash c (w ∷ ws) h p = (rw h p.0, p.1)

split-NoSlash : (s : Bytes) → All NoSlash (split b'/' s)
unfolding split
split-NoSlash [] = (refl, tt)
split-NoSlash (c ∷ s) = elim (Bool-cases (c == b'/')) [
  | inl slash ↦ rw slash (refl, split-NoSlash s)
  | inr other ↦ rw other (prepend_first-NoSlash c (split b'/' s) other (split-NoSlash s))
]

-- The result of `norm_path` neither starts nor ends with `/`, and holds no two in a row.
pub norm_path-IsNormal : (p : Bytes) → IsNormal (norm_path p)
unfolding norm_path
norm_path-IsNormal p = of_parts (non_empty (split b'/' p)) (non_empty-Parts _ (split-NoSlash p))
  where
    of_parts : (ws : List Bytes) → Parts ws → IsNormal (join ws)
    of_parts [] h = inl refl
    of_parts (w ∷ ws) h = inr (clean-join w ws h)

-- What a clean text says of its pieces: only the first may be empty, and not at a fresh start.
record CleanPieces (fresh : Bool) (ws : List Bytes) : Type 0 where
  first : Bytes
  others : List Bytes
  shape : ws ≡ first ∷ others
  all_there : non_empty others ≡ others
  started : fresh ≡ true → NonEmpty first

non_empty-cons :
    (w : Bytes) (ws : List Bytes) → non_empty ws ≡ ws → NonEmpty w → non_empty (w ∷ ws) ≡ w ∷ ws
unfolding non_empty
non_empty-cons [] ws e h = absurd (omega arith)
non_empty-cons (x ∷ w) ws e h = ap (◌∷◌ (x ∷ w)) e

clean-CleanPieces :
    (fresh : Bool) (s : Bytes) → clean fresh s ≡ true → CleanPieces fresh (split b'/' s)
unfolding clean split non_empty
clean-CleanPieces fresh [] h = record {
  first = [];
  others = [];
  shape = refl;
  all_there = refl;
  started = λ e. absurd (ground (arith, e));
}
clean-CleanPieces fresh (c ∷ s) h = elim (Bool-cases (c == b'/')) [
  | inl slash ↦
      let r = clean-CleanPieces true s (ground (arith, slash)) in
      record {
        first = [];
        others = split b'/' s;
        shape = rw slash;
        all_there = rw r.shape (non_empty-cons r.first r.others r.all_there (r.started refl));
        started = λ e. absurd (ground (arith, e));
      }
  | inr other ↦
      let r = clean-CleanPieces false s (ground (arith, other)) in
      record {
        first = c ∷ r.first;
        others = r.others;
        shape = rw other (rw r.shape);
        all_there = r.all_there;
        started = λ e. omega arith;
      }
]

join-cons : (w : Bytes) (ws : List Bytes) → ws ≢ [] → join (w ∷ ws) ≡ w ++ b'/' ∷ join ws
unfolding join
join-cons w [] h = absurd (h refl)
join-cons w (v ∷ ws) h = refl

split-ne-nil : (s : Bytes) → split b'/' s ≢ []
unfolding split
split-ne-nil [] h = cc
split-ne-nil (c ∷ s) h = elim (Bool-cases (c == b'/')) [
  | inl slash ↦ ground (arith, slash)
  | inr other ↦ not_nil c (split b'/' s) (rw other at h)
]
  where
    not_nil : (c : ℕ) (ws : List Bytes) → prepend_first c ws ≢ []
    not_nil c [] e = cc
    not_nil c (w ∷ ws) e = cc

join-prepend_first : (c : ℕ) (ws : List Bytes) → ws ≢ [] → join (prepend_first c ws) ≡ c ∷ join ws
unfolding join
join-prepend_first c [] h = absurd (h refl)
join-prepend_first c (w ∷ []) h = refl
join-prepend_first c (w ∷ v ∷ ws) h = refl

join-split : (s : Bytes) → join (split b'/' s) ≡ s
unfolding split
join-split [] = unfold join in refl
join-split (c ∷ s) = elim (Bool-cases (c == b'/')) [
  | inl slash ↦ rw slash (
      join-cons [] (split b'/' s) (split-ne-nil s)
      ∙ ap₂ ◌∷◌ (sym ((==_iff c b'/').0 slash)) (join-split s))
  | inr other ↦
      rw other (join-prepend_first c (split b'/' s) (split-ne-nil s) ∙ ap (◌∷◌ c) (join-split s))
]

-- A path with no `/` at either end and no two in a row is left as it is by `norm_path`.
pub norm_path_normal : (p : Bytes) → IsNormal p → norm_path p ≡ p
unfolding norm_path
norm_path_normal p (inl e) = rw e
norm_path_normal p (inr h) =
    let r = clean-CleanPieces true p h in
    let whole : non_empty (split b'/' p) ≡ split b'/' p =
      rw r.shape (non_empty-cons r.first r.others r.all_there (r.started refl)) in
    ap join whole ∙ join-split p

pub norm_path_idem : (p : Bytes) → norm_path (norm_path p) ≡ norm_path p
norm_path_idem p = norm_path_normal (norm_path p) (norm_path-IsNormal p)

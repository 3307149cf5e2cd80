-- ===== src/Boot/Cpio/Archive/Termination.antt =====
-- `load_from_data` of native/src/boot/cpio.rs comes to an end on every input.
use magisk_t.Prelude.{
  ℕ, zero, suc, ◌+◌, ◌-◌, ◌≤◌, ◌<◌, ◌≡◌, refl, inl, inr, true, some, [], arith, ltb, ltb→lt,
  Bool-cases, Bytes, length, Outcome, ok, err, panic,
}
use magisk_t.Boot.Cpio.{Entries, align_4}
use magisk_t.Boot.Cpio.Header.{CpioHeader, hdr_sz}
use magisk_t.Boot.Cpio.Archive.{
  Round, next, stop, after_trailer, load_member, load_named, load_name, load_entry, load_loop,
  load_from_data,
}

pub le-align_4 : (x : ℕ) → x ≤ align_4 x
unfolding align_4
le-align_4 x = omega arith

-- A round that goes on does so from a later position.
abbrev Advances : ℕ → Outcome Round → Type 0
Advances pos o = (pos' : ℕ) (entries' : Entries) → o ≡ ok (next pos' entries') → pos ≤ pos'

after_trailer-Advances :
    (bytes : Bytes) (pos : ℕ) (entries : Entries) → Advances pos (after_trailer bytes pos entries)
unfolding after_trailer
after_trailer-Advances bytes pos entries pos' entries' e = ground arith

load_member-Advances :
    (bytes : Bytes) (hdr : CpioHeader) (name : Bytes) (pos : ℕ) (entries : Entries)
    → Advances pos (load_member bytes hdr name pos entries)
unfolding load_member
load_member-Advances bytes hdr name pos entries pos' entries' e = grind (arith, le-align_4)

load_named-Advances :
    (bytes : Bytes) (hdr : CpioHeader) (name : Bytes) (pos : ℕ) (entries : Entries)
    → Advances pos (load_named bytes hdr name pos entries)
unfolding load_named
load_named-Advances bytes hdr name pos entries pos' entries' e = ground (
  arith,
  after_trailer-Advances bytes pos entries pos' entries',
  load_member-Advances bytes hdr name pos entries pos' entries',
)

load_name-Advances :
    (bytes : Bytes) (hdr : CpioHeader) (pos : ℕ) (entries : Entries)
    → Advances pos (load_name bytes hdr pos entries)
unfolding load_name
load_name-Advances bytes hdr pos entries pos' entries' e =
    grind (arith, le-align_4, load_named-Advances bytes hdr)

load_entry-Advances :
    (bytes : Bytes) (pos : ℕ) (entries : Entries)
    → Advances (pos + hdr_sz) (load_entry bytes pos entries)
unfolding load_entry
load_entry-Advances bytes pos entries pos' entries' e = grind (arith, load_name-Advances)

abbrev Ends : ℕ → Bytes → ℕ → Entries → Type 0
Ends fuel bytes pos entries = (r : Outcome Entries) × (load_loop fuel bytes pos entries ≡ some r)

-- One round, given what the rounds after it come to.
load_loop_round :
    (fuel : ℕ) (bytes : Bytes) (pos : ℕ) (entries : Entries)
    → ltb pos (length bytes) ≡ true
    → ((pos' : ℕ) (entries' : Entries) → pos + hdr_sz ≤ pos' → Ends fuel bytes pos' entries')
    → (o : Outcome Round) → load_entry bytes pos entries ≡ o
    → Ends (suc fuel) bytes pos entries
unfolding load_loop
load_loop_round fuel bytes pos entries more rec (ok (next pos' entries')) e =
    let (r, ends) = rec pos' entries' (load_entry-Advances bytes pos entries pos' entries' e) in
    (r, rw (more, e, load_loop) ends)
load_loop_round fuel bytes pos entries more rec (ok (stop entries')) e =
    (ok entries', rw (more, e, load_loop))
load_loop_round fuel bytes pos entries more rec err e = (err, rw (more, e, load_loop))
load_loop_round fuel bytes pos entries more rec panic e = (panic, rw (more, e, load_loop))

load_loop_total :
    (fuel : ℕ) (bytes : Bytes) (pos : ℕ) (entries : Entries)
    → length bytes - pos < fuel
    → Ends fuel bytes pos entries
load_loop_total zero bytes pos entries h = absurd (omega arith)
load_loop_total (suc fuel) bytes pos entries h = elim (Bool-cases (ltb pos (length bytes))) [
  | inr done ↦ (ok entries, unfold load_loop in rw (done, load_loop))
  | inl more ↦
      load_loop_round fuel bytes pos entries more
        (λ pos' entries' later.
          load_loop_total fuel bytes pos' entries' (omega (arith, ltb→lt pos (length bytes) more)))
        (load_entry bytes pos entries) refl
]

-- On every input the loop of `load_from_data` ends within its fuel, with the entries, an error or
-- a panic.
pub load_from_data_total : (bytes : Bytes) → (r : Outcome Entries) × (load_from_data bytes ≡ some r)
unfolding load_from_data
load_from_data_total bytes = load_loop_total (length bytes + 1) bytes 0 [] (omega arith)

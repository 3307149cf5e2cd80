-- ===== src/Sepolicy/Terms/XpermsSound.antt =====
-- Whatever `parse_xperms` of native/src/sepolicy/statement.rs accepts is in the grammar.
use magisk_t.Prelude.{
  ℕ, zero, suc, ◌+◌, ◌≡◌, refl, sym, ap, subst, ◌∙◌, inl, inr, Bool, true, false, Option, none,
  some, List, [], ◌∷◌, ◌++◌, append_assoc, arith, ltb, Option-cases, length,
}
use magisk_t.Sepolicy.{Token, lb, rb, st, tl, hp, hx, id, Xperm}
use magisk_t.Sepolicy.Lexer.{parse_xperm_range}
use magisk_t.Sepolicy.Terms.{xperm, parse_xperm, xperm_list, xperms_after, parse_xperms}
use magisk_t.Sepolicy.Terms.GrammarSound.{Read}
use magisk_t.Sepolicy.Terms.Xperms.{
  OneXperm, hex, pair, range, XpermList, last, next, Xperms, zero_hex, all, only, except,
}

-- What `parse_xperm` reads, with the flag that the caller puts in.
record OneRead (reset : Bool) (tokens : List Token) (x : Xperm) (rest : List Token) : Type 0 where
  taken : List Token
  splits : tokens ≡ taken ++ rest
  is_one : OneXperm reset taken (record x { reset = reset })

one_read :
    (reset : Bool) (taken : List Token) (y : Xperm) (tokens : List Token) (x : Xperm)
    (rest : List Token)
    → OneXperm reset taken (record y { reset = reset })
    → ◌≡◌ {A = Option (Xperm × List Token)} (some (y, tokens)) (some (x, rest))
    → OneRead reset (taken ++ tokens) x rest
one_read reset taken y tokens x rest one e =
    let same : y ≡ x = cc in
    let left : tokens ≡ rest = cc in
    record {
      taken = taken;
      splits = ap (◌++◌ taken) left;
      is_one = subst (λ z. OneXperm reset taken (record z { reset = reset })) same one;
    }

parse_xperm_sound :
    (reset : Bool) (tokens : List Token) (x : Xperm) (rest : List Token)
    → parse_xperm tokens ≡ some (x, rest)
    → OneRead reset tokens x rest
unfolding parse_xperm
parse_xperm_sound reset (hx l ∷ hp ∷ hx h ∷ tokens) x rest e =
    one_read reset (hx l ∷ hp ∷ hx h ∷ []) (xperm l h false) tokens x rest (pair l h) e
parse_xperm_sound reset (hx l ∷ hp ∷ tokens) x rest e = absurd (cc)
parse_xperm_sound reset (hx l ∷ tokens) x rest e =
    one_read reset (hx l ∷ []) (xperm l l false) tokens x rest (hex l) e
parse_xperm_sound reset (id s ∷ tokens) x rest e = elim (Option-cases (parse_xperm_range s)) [
  | inl bad ↦ absurd (ground (arith, bad))
  | inr ((l, h), good) ↦
      one_read reset (id s ∷ []) (xperm l h false) tokens x rest (range s l h good)
        (rw (good, parse_xperm) at e)
]
parse_xperm_sound reset _ x rest e = absurd (cc)

-- The list before `}`, with what the loop had pushed before it.
record ListRead (reset : Bool) (acc : List Xperm) (tokens : List Token) (xs : List Xperm)
    (rest : List Token) : Type 0 where
  taken : List Token
  listed : List Xperm
  splits : tokens ≡ taken ++ rb ∷ rest
  is_list : XpermList reset taken listed
  xs_are : xs ≡ acc ++ listed

list_last :
    (reset : Bool) (acc : List Xperm) (tokens : List Token) (y : Xperm) (mid : List Token)
    (xs : List Xperm) (rest : List Token)
    → parse_xperm tokens ≡ some (y, rb ∷ mid)
    → ◌≡◌ {A = Option (List Xperm × List Token)}
        (some (acc ++ record y { reset = reset } ∷ [], mid))
        (some (xs, rest))
    → ListRead reset acc tokens xs rest
list_last reset acc tokens y mid xs rest found e =
    let r = parse_xperm_sound reset tokens y (rb ∷ mid) found in
    let left : mid ≡ rest = cc in
    record {
      taken = r.taken;
      listed = record y { reset = reset } ∷ [];
      splits = r.splits ∙ ap (λ m. r.taken ++ rb ∷ m) left;
      is_list = last r.is_one;
      xs_are = cc;
    }

list_more :
    (reset : Bool) (acc : List Xperm) (tokens : List Token) (y : Xperm) (mid : List Token)
    (xs : List Xperm) (rest : List Token)
    → parse_xperm tokens ≡ some (y, mid)
    → ListRead reset (acc ++ record y { reset = reset } ∷ []) mid xs rest
    → ListRead reset acc tokens xs rest
list_more reset acc tokens y mid xs rest found l =
    let r = parse_xperm_sound reset tokens y mid found in
    record {
      taken = r.taken ++ l.taken;
      listed = record y { reset = reset } ∷ l.listed;
      splits =
          r.splits ∙ ap (◌++◌ r.taken) l.splits ∙ sym (append_assoc r.taken l.taken (rb ∷ rest));
      is_list = next r.is_one l.is_list;
      xs_are = l.xs_are ∙ append_assoc acc _ l.listed;
    }

-- One round of the loop, by what `parse_xperm` returned.
list_round :
    (fuel : ℕ) (reset : Bool) (acc : List Xperm) (tokens : List Token) (xs : List Xperm)
    (rest : List Token)
    → ((acc' : List Xperm) (mid : List Token)
        → xperm_list fuel reset acc' mid ≡ some (xs, rest)
        → ListRead reset acc' mid xs rest)
    → (r : Option (Xperm × List Token)) → parse_xperm tokens ≡ r
    → xperm_list (suc fuel) reset acc tokens ≡ some (xs, rest)
    → ListRead reset acc tokens xs rest
unfolding xperm_list
list_round fuel reset acc tokens xs rest ih none found e = absurd (ground (arith, found, e))
list_round fuel reset acc tokens xs rest ih (some (y, rb ∷ mid)) found e =
    list_last reset acc tokens y mid xs rest found (rw (found, xperm_list) at e)
list_round fuel reset acc tokens xs rest ih (some (y, mid)) found e =
    list_more reset acc tokens y mid xs rest found (ih _ mid (rw (found, xperm_list) at e))

xperm_list_sound :
    (fuel : ℕ) (reset : Bool) (acc : List Xperm) (tokens : List Token) (xs : List Xperm)
    (rest : List Token)
    → xperm_list fuel reset acc tokens ≡ some (xs, rest)
    → ListRead reset acc tokens xs rest
xperm_list_sound zero reset acc tokens xs rest e = absurd (unfold xperm_list in cc e)
xperm_list_sound (suc fuel) reset acc tokens xs rest e =
    list_round fuel reset acc tokens xs rest
      (λ acc' mid. xperm_list_sound fuel reset acc' mid xs rest) (parse_xperm tokens) refl e

Xperms-Read :
    (taken : List Token) (ys : List Xperm) (tokens : List Token) (xs : List Xperm)
    (rest : List Token)
    → Xperms taken ys
    → ◌≡◌ {A = Option (List Xperm × List Token)} (some (ys, tokens)) (some (xs, rest))
    → Read Xperms (taken ++ tokens) xs rest
Xperms-Read taken ys tokens xs rest one e =
    let same : ys ≡ xs = cc in
    let left : tokens ≡ rest = cc in
    record { taken = taken; splits = ap (◌++◌ taken) left; is_read = subst (Xperms taken) same one }

xperms_after_sound :
    (tokens : List Token) (xs : List Xperm) (rest : List Token)
    → xperms_after false tokens ≡ some (xs, rest)
    → Read Xperms tokens xs rest
unfolding xperms_after
xperms_after_sound (lb ∷ tokens) xs rest e =
    let r = xperm_list_sound (length tokens + 1) false [] tokens xs rest e in
    record {
      taken = lb ∷ (r.taken ++ rb ∷ []);
      splits = ap (◌∷◌ lb) (r.splits ∙ sym (append_assoc r.taken (rb ∷ []) rest));
      is_read = subst (Xperms _) (sym r.xs_are) (only r.is_list);
    }
xperms_after_sound (st ∷ tokens) xs rest e = Xperms-Read (st ∷ []) _ tokens xs rest all e
xperms_after_sound (hx zero ∷ tokens) xs rest e =
    Xperms-Read (hx 0 ∷ []) _ tokens xs rest zero_hex e
xperms_after_sound (hx (suc l) ∷ tokens) xs rest e =
    let pos : ltb 0 (suc l) ≡ true = ground arith in
    Xperms-Read (hx (suc l) ∷ []) _ tokens xs rest (hex (suc l) (omega arith))
      (rw (pos, xperms_after) at e)
xperms_after_sound (id s ∷ tokens) xs rest e = elim (Option-cases (parse_xperm_range s)) [
  | inl bad ↦ absurd (ground (arith, bad))
  | inr ((l, h), good) ↦
      Xperms-Read (id s ∷ []) _ tokens xs rest (range s l h good) (rw (good, xperms_after) at e)
]
xperms_after_sound _ xs rest e = absurd (cc)

-- What `parse_xperms` accepts is of the grammar `Xperms`, with the permissions that the grammar
-- gives, and what it leaves is what stands behind.
pub parse_xperms_sound :
    (tokens : List Token) (xs : List Xperm) (rest : List Token)
    → parse_xperms tokens ≡ some (xs, rest)
    → Read Xperms tokens xs rest
unfolding parse_xperms
parse_xperms_sound (tl ∷ lb ∷ tokens) xs rest e =
    let r = xperm_list_sound (length tokens + 1) true [] tokens xs rest e in
    record {
      taken = tl ∷ lb ∷ (r.taken ++ rb ∷ []);
      splits = ap (λ ts. tl ∷ lb ∷ ts) (r.splits ∙ sym (append_assoc r.taken (rb ∷ []) rest));
      is_read = subst (Xperms _) (sym r.xs_are) (except r.is_list);
    }
parse_xperms_sound (tl ∷ tokens) xs rest e = absurd (cc)
parse_xperms_sound [] xs rest e = xperms_after_sound [] xs rest e
parse_xperms_sound (t ∷ tokens) xs rest e = xperms_after_sound (t ∷ tokens) xs rest e

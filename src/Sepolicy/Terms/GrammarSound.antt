-- ===== src/Sepolicy/Terms/GrammarSound.antt =====
-- That `parse_term` and `parse_sterm` of native/src/sepolicy/statement.rs accept nothing but the
-- grammar.
use magisk_t.Prelude.{
  ◌≡◌, refl, sym, ap, subst, ◌∙◌, ◌⊎◌, inl, inr, Option, none, some, List, [], ◌∷◌, ◌++◌,
  append-nil, append_assoc, Bytes,
}
use magisk_t.Sepolicy.{Token, lb, rb, st, id}
use magisk_t.Sepolicy.Terms.{
  names_until_rb, parse_term, push_name, or_empty, snames_until_rb, parse_sterm,
}
use magisk_t.Sepolicy.Terms.Grammar.{
  Names, nil, cons, Term, one, group, Starred, star, name, more, Sterm, all, starred,
}

-- What was read of some tokens, in the grammar `G`.
pub record Read {A : Type 0} (G : List Token → A → Type 0) (tokens : List Token) (a : A)
    (rest : List Token) : Type 0 where
  pub taken : List Token
  pub splits : tokens ≡ taken ++ rest
  pub is_read : G taken a

-- The tokens before `}`, and the names behind those in `acc`.
record NamesRead (acc : List Bytes) (tokens : List Token) (names : List Bytes) (rest : List Token)
    : Type 0 where
  taken : List Token
  listed : List Bytes
  splits : tokens ≡ taken ++ rb ∷ rest
  is_names : Names taken listed
  names_are : names ≡ acc ++ listed

names_until_rb_sound :
    (acc : List Bytes) (tokens : List Token) (names : List Bytes) (rest : List Token)
    → names_until_rb acc tokens ≡ some (names, rest)
    → NamesRead acc tokens names rest
unfolding names_until_rb
names_until_rb_sound acc (id n ∷ tokens) names rest h =
    let r = names_until_rb_sound (acc ++ n ∷ []) tokens names rest h in
    record {
      taken = id n ∷ r.taken;
      listed = n ∷ r.listed;
      splits = ap (◌∷◌ (id n)) r.splits;
      is_names = cons n r.is_names;
      names_are = r.names_are ∙ append_assoc acc (n ∷ []) r.listed;
    }
names_until_rb_sound acc (rb ∷ tokens) names rest h = record {
  taken = [];
  listed = [];
  splits = cc;
  is_names = nil;
  names_are = rw append-nil (cc);
}
names_until_rb_sound acc _ names rest h = absurd (cc)

abbrev push_all : Option (List Bytes) → List Bytes → Option (List Bytes)
push_all none listed = none
push_all (some names) listed = some (names ++ listed)

push_all-push_name :
    (acc : Option (List Bytes)) (n : Bytes) (listed : List Bytes)
    → push_all (push_name acc n) listed ≡ push_all acc (n ∷ listed)
push_all-push_name none n listed = refl
push_all-push_name (some names) n listed = ap some (append_assoc names (n ∷ []) listed)

push_all-nil : (acc : Option (List Bytes)) → push_all acc [] ≡ acc
push_all-nil none = refl
push_all-nil (some names) = ap some (append-nil names)

-- The tokens between braces where `*` is allowed, and what they stand for behind `acc`.
abbrev Kind : Option (List Bytes) → List Token → List Bytes → Type 0
Kind acc taken names =
    ((listed : List Bytes) × Names taken listed × (names ≡ or_empty (push_all acc listed)))
    ⊎ (Starred taken × (names ≡ []))

record StarNamesRead (acc : Option (List Bytes)) (tokens : List Token) (names : List Bytes)
    (rest : List Token) : Type 0 where
  taken : List Token
  splits : tokens ≡ taken ++ rb ∷ rest
  kind : Kind acc taken names

Kind-id :
    (acc : Option (List Bytes)) (n : Bytes) (taken : List Token) (names : List Bytes)
    → Kind (push_name acc n) taken names
    → Kind acc (id n ∷ taken) names
Kind-id acc n taken names (inl (listed, h, e)) =
    inl (n ∷ listed, cons n h, e ∙ ap or_empty (push_all-push_name acc n listed))
Kind-id acc n taken names (inr (h, e)) = inr (name n h, e)

Kind-st :
    (acc : Option (List Bytes)) (taken : List Token) (names : List Bytes)
    → Kind none taken names
    → Kind acc (st ∷ taken) names
Kind-st acc taken names (inl (listed, h, e)) = inr (star h, e)
Kind-st acc taken names (inr (h, e)) = inr (more h, e)

snames_until_rb_sound :
    (acc : Option (List Bytes)) (tokens : List Token) (names : List Bytes) (rest : List Token)
    → snames_until_rb acc tokens ≡ some (names, rest)
    → StarNamesRead acc tokens names rest
unfolding snames_until_rb
snames_until_rb_sound acc (id n ∷ tokens) names rest h =
    let r = snames_until_rb_sound (push_name acc n) tokens names rest h in
    record {
      taken = id n ∷ r.taken;
      splits = ap (◌∷◌ (id n)) r.splits;
      kind = Kind-id acc n r.taken names r.kind;
    }
snames_until_rb_sound acc (st ∷ tokens) names rest h =
    let r = snames_until_rb_sound none tokens names rest h in
    record {
      taken = st ∷ r.taken;
      splits = ap (◌∷◌ st) r.splits;
      kind = Kind-st acc r.taken names r.kind;
    }
snames_until_rb_sound acc (rb ∷ tokens) names rest h = record {
  taken = [];
  splits = cc;
  kind = inl ([], nil, rw push_all-nil (cc));
}
snames_until_rb_sound acc _ names rest h = absurd (cc)

pub parse_term_sound :
    (tokens : List Token) (names : List Bytes) (rest : List Token)
    → parse_term tokens ≡ some (names, rest)
    → Read Term tokens names rest
unfolding parse_term
parse_term_sound (id n ∷ tokens) names rest h = record {
  taken = id n ∷ [];
  splits = cc;
  is_read = subst (Term (id n ∷ [])) (cc) (one n);
}
parse_term_sound (lb ∷ tokens) names rest h =
    let r = names_until_rb_sound [] tokens names rest h in
    record {
      taken = lb ∷ (r.taken ++ rb ∷ []);
      splits = ap (◌∷◌ lb) (r.splits ∙ sym (append_assoc r.taken (rb ∷ []) rest));
      is_read = subst (Term _) (sym r.names_are) (group r.is_names);
    }
parse_term_sound _ names rest h = absurd (cc)

group_of_Kind :
    (taken : List Token) (names : List Bytes)
    → Kind (some []) taken names
    → Sterm (lb ∷ (taken ++ rb ∷ [])) names
group_of_Kind taken names (inl (listed, h, e)) = subst (Sterm _) (sym e) (group h)
group_of_Kind taken names (inr (h, e)) = subst (Sterm _) (sym e) (starred h)

-- What `parse_sterm` accepts is a `Sterm` with those names, and what it leaves is what stands behind.
pub parse_sterm_sound :
    (tokens : List Token) (names : List Bytes) (rest : List Token)
    → parse_sterm tokens ≡ some (names, rest)
    → Read Sterm tokens names rest
unfolding parse_sterm
parse_sterm_sound (id n ∷ tokens) names rest h = record {
  taken = id n ∷ [];
  splits = cc;
  is_read = subst (Sterm (id n ∷ [])) (cc) (one n);
}
parse_sterm_sound (st ∷ tokens) names rest h = record {
  taken = st ∷ [];
  splits = cc;
  is_read = subst (Sterm (st ∷ [])) (cc) all;
}
parse_sterm_sound (lb ∷ tokens) names rest h =
    let r = snames_until_rb_sound (some []) tokens names rest h in
    record {
      taken = lb ∷ (r.taken ++ rb ∷ []);
      splits = ap (◌∷◌ lb) (r.splits ∙ sym (append_assoc r.taken (rb ∷ []) rest));
      is_read = group_of_Kind r.taken names r.kind;
    }
parse_sterm_sound _ names rest h = absurd (cc)

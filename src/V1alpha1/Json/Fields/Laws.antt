-- ===== src/V1alpha1/Json/Fields/Laws.antt =====
-- Which structs are read back as they were written: those whose fields are, with keys that differ.
use atomix_operator.Base.{
  ◌≡◌, ◌≢◌, refl, sym, ap, ◌∙◌, arith, eq_refl, String, Bool, true, false, some, List, [], ◌∷◌,
  ◌++◌, Result, ok, err, panic, bind, All-append_left, All-append_right,
}
use atomix_operator.V1alpha1.Json.{Numbers, JsonError, Json, null, object}
use atomix_operator.V1alpha1.Json.Codecs.{Codec}
use atomix_operator.V1alpha1.Json.Codecs.Laws.{ReadsBack, IsNotNull, Lawful, EmptyIsZero}
use atomix_operator.V1alpha1.Json.Fields.Keys.{
  disjoint, Covers, Agree, append-Covers, Agree-left, Agree-right,
}
use atomix_operator.V1alpha1.Json.Fields.{
  of_members, to_members, lookup, Fields, read_found, field, write_unless, omitempty, ◌⊗◌,
  of_record, struct_codec,
}

module _ {N : Numbers} where
  module _ {A : Type 0} (p : Fields N A) where
    abbrev pub Written : Result JsonError (List (String × Json N)) → A → Type 0
    Written (ok ms) a =
        Covers p.keys ms × ((ns : List (String × Json N)) → Agree p.keys ms ns → p.read ns ≡ ok a)
    Written (err e) a = ⊥
    Written panic a = ⊥

    module _ (IsGood : A → Type 0) where
      pub record LawfulFields : Type 0 where
        pub written_back : (a : A) → IsGood a → Written (p.write a) a

  module _ {A : Type 0} (key : String) (c : Codec N A) where
    one-Covers : (j : Json N) → Covers (key ∷ []) ((key, j) ∷ [])
    one-Covers j k e = ground arith

    found : (j : Json N) → lookup key ((key, j) ∷ []) ≡ some j
    found j = rw (eq_refl key) refl

    field_reads :
        (a : A) (r : Result JsonError (Json N))
        → ReadsBack c r a
        → Written (field key c) (bind r λ j. ok ((key, j) ∷ [])) a
    field_reads a (ok j) e =
        (one-Covers j, λ ns agree. ap (read_found key c) (sym agree.0 ∙ found j) ∙ e)
    field_reads a (err f) e = absurd e
    field_reads a panic e = absurd e

    module _ (IsGood : A → Type 0) (l : Lawful c IsGood) where
      pub field-LawfulFields : LawfulFields (field key c) IsGood
      field-LawfulFields = record {
        written_back = λ a good. field_reads a (c.encode a) (l.decode-encode a good);
      }

      omitempty_reads :
          EmptyIsZero c IsGood
          → (b : Bool) (a : A) → IsGood a
          → c.is_empty a ≡ b
          → Written (omitempty key c) (write_unless key c b a) a
      omitempty_reads zero true a good e = (
        λ k absent. refl,
        λ ns agree. ap (read_found key c) (sym agree.0) ∙ ap ok (sym (zero a good e)),
      )
      omitempty_reads zero false a good e = field_reads a (c.encode a) (l.decode-encode a good)

      pub omitempty-LawfulFields : EmptyIsZero c IsGood → LawfulFields (omitempty key c) IsGood
      omitempty-LawfulFields zero = record {
        written_back = λ a good. omitempty_reads zero (c.is_empty a) a good refl;
      }

  module _ {A B : Type 0} (p : Fields N A) (q : Fields N B) where
    both_reads :
        disjoint p.keys q.keys ≡ true
        → (a : A) (b : B) (r s : Result JsonError (List (String × Json N))) → Written p r a
        → Written q s b
        → Written (p ⊗ q) (bind r λ ms. bind s λ ns. ok (ms ++ ns)) (a, b)
    both_reads d a b (ok ms) (ok ns) (covers, reads) (covers', reads') = (
      append-Covers p.keys q.keys ms ns covers covers',
      λ rs agree.
          let left =
            All-append_left (λ key. lookup key (ms ++ ns) ≡ lookup key rs) p.keys q.keys agree in
          let right =
            All-append_right (λ key. lookup key (ms ++ ns) ≡ lookup key rs) p.keys q.keys agree in
          let first = reads rs (Agree-left p.keys q.keys ms ns rs d covers' left) in
          let second =
            reads' rs (Agree-right p.keys q.keys q.keys ms ns rs d (λ key h. h) covers right) in
          rw first (rw second refl),
    )
    both_reads d a b (ok ms) (err f) w v = absurd v
    both_reads d a b (ok ms) panic w v = absurd v
    both_reads d a b (err f) s w v = absurd w
    both_reads d a b panic s w v = absurd w

  pub both-LawfulFields :
      {A B : Type 0} {p : Fields N A} {q : Fields N B} {IsGood : A → Type 0} {IsGood' : B → Type 0}
      → disjoint p.keys q.keys ≡ true
      → LawfulFields p IsGood
      → LawfulFields q IsGood'
      → LawfulFields (p ⊗ q) (λ x. IsGood x.0 × IsGood' x.1)
  both-LawfulFields {p = p} {q = q} d l m = record {
    written_back = λ x good.
        both_reads p q d x.0 x.1 (p.write x.0) (q.write x.1) (l.written_back x.0 good.0)
          (m.written_back x.1 good.1);
  }

  module _ {A B : Type 0} (make : A → B) (parts : B → A) (p : Fields N A) where
    record_reads :
        (b : B)
        → make (parts b) ≡ b
        → (r : Result JsonError (List (String × Json N))) → Written p r (parts b)
        → Written (of_record p make parts) r b
    record_reads b e (ok ms) (covers, reads) = (covers, λ ns agree. rw (reads ns agree) (ap ok e))
    record_reads b e (err f) w = absurd w
    record_reads b e panic w = absurd w

  pub of_record-LawfulFields :
      {A B : Type 0} (make : A → B) (parts : B → A) {p : Fields N A} {IsGood : A → Type 0}
      → ((b : B) → make (parts b) ≡ b)
      → (IsGood' : B → Type 0) → ((b : B) → IsGood' b → IsGood (parts b))
      → LawfulFields p IsGood
      → LawfulFields (of_record p make parts) IsGood'
  of_record-LawfulFields make parts {p = p} same IsGood' weaken l = record {
    written_back = λ b good.
        record_reads make parts p b (same b) (p.write (parts b))
          (l.written_back (parts b) (weaken b good));
  }

  of_members-to_members : (ms : List (String × Json N)) → of_members (to_members ms) ≡ ms
  of_members-to_members [] = refl
  of_members-to_members ((k, j) ∷ ms) = ap (λ ns. (k, j) ∷ ns) (of_members-to_members ms)

  Agree-refl : (keys : List String) (ms : List (String × Json N)) → Agree keys ms ms
  Agree-refl [] ms = tt
  Agree-refl (k ∷ ks) ms = (refl, Agree-refl ks ms)

  module _ {A : Type 0} (p : Fields N A) where
    struct_reads :
        (a : A) (r : Result JsonError (List (String × Json N)))
        → Written p r a
        → ReadsBack (struct_codec p) (bind r λ ms. ok (object (to_members ms))) a
    struct_reads a (ok ms) (covers, reads) =
        ap p.read (of_members-to_members ms) ∙ reads ms (Agree-refl p.keys ms)
    struct_reads a (err f) w = absurd w
    struct_reads a panic w = absurd w

    pub struct-Lawful :
        (IsGood : A → Type 0) → LawfulFields p IsGood → Lawful (struct_codec p) IsGood
    struct-Lawful IsGood l = record {
      decode-encode = λ a good. struct_reads a (p.write a) (l.written_back a good);
      decode-null = refl;
    }

    object-ne-null :
        (r : Result JsonError (List (String × Json N)))
        → bind r (λ ms. ok (object (to_members ms))) ≢ ok null
    object-ne-null (ok ms) e = cc
    object-ne-null (err f) e = cc
    object-ne-null panic e = cc

    pub struct-IsNotNull : IsNotNull (struct_codec p)
    struct-IsNotNull a = object-ne-null (p.write a)

    -- `omitempty` on a struct leaves out nothing.
    pub struct-EmptyIsZero : (IsGood : A → Type 0) → EmptyIsZero (struct_codec p) IsGood
    struct-EmptyIsZero IsGood a good e = cc

-- ===== src/V1alpha1/Json/Fields/Keys.antt =====
-- Members of a document, and which keys they have.
use atomix_operator.Base.{
  if◌then◌else◌, ◌≡◌, refl, sym, ◌∙◌, arith, eq_iff, eq_refl, String, ◌==◌, Bool, true, false,
  Option, none, some, List, [], ◌∷◌, ◌++◌, any, All,
}
use atomix_operator.V1alpha1.Json.{Numbers, Json}
use atomix_operator.V1alpha1.Json.Fields.{lookup}

abbrev pub has : String → List String → Bool
has key keys = any (λ k. k == key) keys

-- No key is in both lists.
abbrev pub disjoint : List String → List String → Bool
disjoint [] js = true
disjoint (k ∷ ks) js = let rest = disjoint ks js in if has k js then false else rest

has-append :
    (key : String) (ks js : List String)
    → has key (ks ++ js) ≡ false
    → (has key ks ≡ false) × (has key js ≡ false)
has-append key [] js e = (refl, e)
has-append key (k ∷ ks) js e = ground (arith, has-append key ks js)

-- A key of the second is none of the first.
has-disjoint :
    (key : String) (ks js : List String)
    → disjoint ks js ≡ true
    → has key js ≡ true
    → has key ks ≡ false
has-disjoint key [] js d h = refl
has-disjoint key (k ∷ ks) js d h = ground (arith, eq_iff k key, has-disjoint key ks js)

module _ {N : Numbers} where
  -- No other keys than these are in the members.
  abbrev pub Covers : List String → List (String × Json N) → Type 0
  Covers keys ms = (key : String) → has key keys ≡ false → lookup key ms ≡ none

  -- Under the keys the members have the same.
  abbrev pub Agree : List String → List (String × Json N) → List (String × Json N) → Type 0
  Agree keys ms ns = All (λ key. lookup key ms ≡ lookup key ns) keys

  or_else : Option (Json N) → Option (Json N) → Option (Json N)
  or_else none o = o
  or_else (some j) o = some j

  lookup-append :
      (key : String) (ms ns : List (String × Json N))
      → lookup key (ms ++ ns) ≡ or_else (lookup key ms) (lookup key ns)
  unfolding or_else
  lookup-append key [] ns = refl
  lookup-append key ((k, j) ∷ ms) ns = ground (arith, lookup-append key ms ns)

  pub lookup-append_left :
      (key : String) (ms ns : List (String × Json N))
      → lookup key ns ≡ none
      → lookup key (ms ++ ns) ≡ lookup key ms
  unfolding or_else
  lookup-append_left key ms ns e = ground (arith, lookup-append key ms ns)

  lookup-append_right :
      (key : String) (ms ns : List (String × Json N))
      → lookup key ms ≡ none
      → lookup key (ms ++ ns) ≡ lookup key ns
  unfolding or_else
  lookup-append_right key ms ns e = ground (arith, lookup-append key ms ns)

  pub append-Covers :
      (ks js : List String) (ms ns : List (String × Json N))
      → Covers ks ms
      → Covers js ns
      → Covers (ks ++ js) (ms ++ ns)
  append-Covers ks js ms ns first second key absent =
      let (a, b) = has-append key ks js absent in
      lookup-append_right key ms ns (first key a) ∙ second key b

  pub Agree-left :
      (ks js : List String) (ms ns rs : List (String × Json N))
      → disjoint ks js ≡ true
      → Covers js ns
      → Agree ks (ms ++ ns) rs
      → Agree ks ms rs
  Agree-left [] js ms ns rs d covers agree = tt
  Agree-left (k ∷ ks) js ms ns rs d covers (e, agree) = (
    sym (lookup-append_left k ms ns (covers k (ground arith))) ∙ e,
    Agree-left ks js ms ns rs (ground arith) covers agree,
  )

  pub Agree-right :
      (ks js is : List String) (ms ns rs : List (String × Json N))
      → disjoint ks js ≡ true
      → ((key : String) → has key is ≡ true → has key js ≡ true)
      → Covers ks ms
      → Agree is (ms ++ ns) rs
      → Agree is ns rs
  Agree-right ks js [] ms ns rs d inside covers agree = tt
  Agree-right ks js (k ∷ is) ms ns rs d inside covers (e, agree) = (
    sym (
          lookup-append_right k ms ns
            (covers k (has-disjoint k ks js d (inside k (ground (arith, eq_refl k))))))
        ∙ e,
    Agree-right ks js is ms ns rs d (λ key h. inside key (ground (arith, h))) covers agree,
  )

-- ===== src/V1alpha1/DeepCopy/Represents.antt =====
-- What a struct in memory stands for, where all that it reaches lies between two addresses; and what
-- a copy of it is.
use atomix_operator.Base.{◌≤◌, ◌<◌, ◌≡◌, refl, ◌∙◌, Option, some, arith}
use atomix_operator.V1alpha1.DeepCopy.Heap.{Vendored, Addr, Heap, M, pure, and_then}

module _ {V : Vendored} where
  -- The cells from `lo` to `hi` are the same.
  abbrev pub Same : Addr → Addr → Heap V → Heap V → Type 0
  Same lo hi h g = (a : Addr) → lo ≤ a → a < hi → g.cell a ≡ h.cell a

  abbrev pub same-trans :
      {lo hi : Addr} (h g k : Heap V) → Same lo hi h g → Same lo hi g k → Same lo hi h k
  same-trans h g k p q a l u = q a l u ∙ p a l u

module _ (V : Vendored) where
  -- `Is h lo hi x w`: in `h`, the struct `x` stands for the value `w`, and every cell that it reaches
  -- lies from `lo` to `hi`.
  pub record Representation (T W : Type 0) : Type 1 where
    pub Is : Heap V → Addr → Addr → T → W → Type 0
    -- It does not hang on other cells.
    pub frame :
        (h g : Heap V) (lo hi lo' hi' : Addr) (x : T) (w : W)
        → lo' ≤ lo
        → hi ≤ hi'
        → Same lo hi h g
        → Is h lo hi x w
        → Is g lo' hi' x w

module _ {V : Vendored} where
  -- A run from `h` ends well, in a memory where the old cells are as they were and the result stands
  -- for `w` with cells from `lo` on.
  pub record Copied {T W : Type 0} (R : Representation V T W) (run : Option (Heap V × T))
      (h : Heap V) (lo : Addr) (w : W) : Type 0 where
    pub heap : Heap V
    pub value : T
    pub returns : run ≡ some (heap, value)
    pub grows : h.next ≤ heap.next
    pub keeps : Same 0 h.next h heap
    pub is : R.Is heap lo heap.next value w

  -- A command copies what it is given, whatever it stands for, with new cells only.
  abbrev pub Copies : {T W : Type 0} → Representation V T W → (T → M V T) → Type 0
  Copies {T} {W} R copy =
      (h : Heap V) (lo : Addr) (x : T) (w : W)
      → lo ≤ h.next
      → R.Is h 0 h.next x w
      → Copied R (copy x h) h lo w

  pub pure-Copied :
      {T W : Type 0} (R : Representation V T W) (h : Heap V) (lo : Addr) (x : T) (w : W)
      → R.Is h lo h.next x w
      → Copied R (pure x h) h lo w
  pure-Copied R h lo x w is = record {
    heap = h;
    value = x;
    returns = refl;
    grows = omega arith;
    keeps = λ a l u. refl;
    is = is;
  }

  pub then-Copied :
      {A WA T W : Type 0} {RA : Representation V A WA} {R : Representation V T W}
      {run : Option (Heap V × A)} (k : A → M V T) {h : Heap V} {lo : Addr} {wa : WA} {w : W}
      (first : Copied RA run h lo wa)
      → Copied R (k first.value first.heap) first.heap lo w
      → Copied R (and_then run k) h lo w
  then-Copied k {h} first rest = record {
    heap = rest.heap;
    value = rest.value;
    returns = rw first.returns rest.returns;
    grows = omega (arith, first.grows, rest.grows);
    keeps = λ a l u. rest.keeps a l (omega (arith, first.grows)) ∙ first.keeps a l u;
    is = rest.is;
  }

  -- What stood for a value before a run does so after it.
  pub kept :
      {A WA T W : Type 0} (RA : Representation V A WA) {R : Representation V T W}
      {run : Option (Heap V × T)} {h : Heap V} {lo lo' : Addr} {w : W} (c : Copied R run h lo' w)
      (x : A) (wa : WA)
      → RA.Is h lo h.next x wa
      → RA.Is c.heap lo c.heap.next x wa
  kept RA {h} {lo} c x wa is =
      RA.frame h c.heap lo h.next lo c.heap.next x wa (omega arith) c.grows
        (λ a l u. c.keeps a (omega arith) u) is

  -- A struct without pointers stands for itself.
  abbrev pub plain : (T : Type 0) → Representation V T T
  plain T = record {
    Is = λ h lo hi x w. x ≡ w;
    frame = λ h g lo hi lo' hi' x w below above same is. is;
  }

  pub plain-Copies : {T : Type 0} → Copies (plain T) pure
  plain-Copies {T} h lo x w low is = pure-Copied (plain T) h lo x w is

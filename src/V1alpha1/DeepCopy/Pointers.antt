-- ===== src/V1alpha1/DeepCopy/Pointers.antt =====
-- Pointers and slices: what they stand for, and that their copies are copies.
use atomix_operator.Base.{
  suc, ◌≤◌, ◌<◌, ◌≡◌, ◌≢◌, refl, ◌∙◌, Option, none, some, List, [], ◌∷◌, arith,
}
use atomix_operator.V1alpha1.DeepCopy.Heap.{
  Vendored, Addr, Heap, Cell, CellType, M, pure, write, contents,
}
use atomix_operator.V1alpha1.DeepCopy.Into.{new_copy, deep_copy, copy_elements}
use atomix_operator.V1alpha1.DeepCopy.Represents.{
  Same, Representation, Copies, pure-Copied, then-Copied, kept,
}

module _ {V : Vendored} (h : Heap V) (p : Addr) (c : Cell V) where
  write_same : (write h p c).cell p ≡ some c
  write_same = ground arith

  pub write_other : (a : Addr) → a ≢ p → (write h p c).cell a ≡ h.cell a
  write_other a apart = ground arith

module _ {V : Vendored} where
  module _ {T W : Type 0} (t : CellType V T) (R : Representation V T W) where
    -- A cell at `p`, from `lo` to `hi`, holds a struct that stands for `w`.
    pub record Points (h : Heap V) (lo hi p : Addr) (w : W) : Type 0 where
      pub struct : T
      pub above : lo ≤ p
      pub below : p < hi
      pub holds : contents t (h.cell p) ≡ some struct
      pub is : R.Is h lo hi struct w

    pub Points-frame :
        (h g : Heap V) (lo hi lo' hi' p : Addr) (w : W)
        → lo' ≤ lo
        → hi ≤ hi'
        → Same lo hi h g
        → Points h lo hi p w
        → Points g lo' hi' p w
    Points-frame h g lo hi lo' hi' p w below above same x = record {
      struct = x.struct;
      above = omega (arith, x.above);
      below = omega (arith, x.below);
      holds = rw (same p x.above x.below) x.holds;
      is = R.frame h g lo hi lo' hi' x.struct w below above same x.is;
    }

    abbrev pub cell : Representation V Addr W
    cell = record { Is = Points; frame = Points-frame }

    -- nil stands for no value.
    abbrev pub IsPointer : Heap V → Addr → Addr → Option Addr → Option W → Type 0
    IsPointer h lo hi none none = Unit {0}
    IsPointer h lo hi none (some w) = ⊥
    IsPointer h lo hi (some p) none = ⊥
    IsPointer h lo hi (some p) (some w) = Points h lo hi p w

    pub IsPointer-frame :
        (h g : Heap V) (lo hi lo' hi' : Addr) (p : Option Addr) (w : Option W)
        → lo' ≤ lo
        → hi ≤ hi'
        → Same lo hi h g
        → IsPointer h lo hi p w
        → IsPointer g lo' hi' p w
    IsPointer-frame h g lo hi lo' hi' none none below above same x = tt
    IsPointer-frame h g lo hi lo' hi' none (some w) below above same x = elim x [ ]
    IsPointer-frame h g lo hi lo' hi' (some p) none below above same x = elim x [ ]
    IsPointer-frame h g lo hi lo' hi' (some p) (some w) below above same x =
        Points-frame h g lo hi lo' hi' p w below above same x

    abbrev pub pointer : Representation V (Option Addr) (Option W)
    pointer = record { Is = IsPointer; frame = IsPointer-frame }

    new_copy-Copies : (copy : T → M V T) → Copies R copy → Copies cell (new_copy t copy)
    unfolding new_copy
    new_copy-Copies copy copies h lo p w low x =
        let h1 : Heap V = record h { next = suc h.next } in
        let c = copies h1 (suc h.next) x.struct w (omega arith) (
          R.frame h h1 0 h.next 0 (suc h.next) x.struct w (omega arith) (omega arith)
            (λ a l u. refl) x.is) in
        let h2 = write c.heap h.next (t.inject c.value) in
        record {
          heap = h2;
          value = h.next;
          returns = rw (x.holds, c.returns) refl;
          grows = omega (arith, c.grows);
          keeps = λ a l u.
              write_other c.heap h.next (t.inject c.value) a (omega arith)
              ∙ c.keeps a l (omega arith);
          is = record {
            struct = c.value;
            above = low;
            below = omega (arith, c.grows);
            holds = rw (write_same c.heap h.next (t.inject c.value)) (t.project-inject c.value);
            is =
                R.frame c.heap h2 (suc h.next) c.heap.next lo c.heap.next c.value w (omega arith)
                  (omega arith)
                  (λ a l u. write_other c.heap h.next (t.inject c.value) a (omega arith)) c.is;
          };
        }

    pub deep_copy-Copies : (copy : T → M V T) → Copies R copy → Copies pointer (deep_copy t copy)
    unfolding deep_copy
    deep_copy-Copies copy copies h lo none none low x = pure-Copied pointer h lo none none x
    deep_copy-Copies copy copies h lo none (some w) low x = elim x [ ]
    deep_copy-Copies copy copies h lo (some p) none low x = elim x [ ]
    deep_copy-Copies copy copies h lo (some p) (some w) low x =
        let c = new_copy-Copies copy copies h lo p w low x in
        then-Copied {RA = cell} (λ q. pure (some q)) c
          (pure-Copied pointer c.heap lo (some c.value) (some w) c.is)

  module _ {T W : Type 0} (R : Representation V T W) where
    -- The elements of an array, one by one.
    abbrev pub AreElements : Heap V → Addr → Addr → List T → List W → Type 0
    AreElements h lo hi [] [] = Unit {0}
    AreElements h lo hi [] (w ∷ ws) = ⊥
    AreElements h lo hi (x ∷ xs) [] = ⊥
    AreElements h lo hi (x ∷ xs) (w ∷ ws) = R.Is h lo hi x w × AreElements h lo hi xs ws

    pub AreElements-frame :
        (h g : Heap V) (lo hi lo' hi' : Addr) (xs : List T) (ws : List W)
        → lo' ≤ lo
        → hi ≤ hi'
        → Same lo hi h g
        → AreElements h lo hi xs ws
        → AreElements g lo' hi' xs ws
    AreElements-frame h g lo hi lo' hi' [] [] below above same e = tt
    AreElements-frame h g lo hi lo' hi' [] (w ∷ ws) below above same e = elim e [ ]
    AreElements-frame h g lo hi lo' hi' (x ∷ xs) [] below above same e = elim e [ ]
    AreElements-frame h g lo hi lo' hi' (x ∷ xs) (w ∷ ws) below above same (e, es) = (
      R.frame h g lo hi lo' hi' x w below above same e,
      AreElements-frame h g lo hi lo' hi' xs ws below above same es,
    )

    abbrev pub elements : Representation V (List T) (List W)
    elements = record { Is = AreElements; frame = AreElements-frame }

    pub copy_elements-Copies :
        (copy : T → M V T) → Copies R copy → Copies elements (copy_elements copy)
    unfolding copy_elements
    copy_elements-Copies copy copies h lo [] [] low e = pure-Copied elements h lo [] [] e
    copy_elements-Copies copy copies h lo [] (w ∷ ws) low e = elim e [ ]
    copy_elements-Copies copy copies h lo (x ∷ xs) [] low e = elim e [ ]
    copy_elements-Copies copy copies h lo (x ∷ xs) (w ∷ ws) low (e, es) =
        let c = copies h lo x w low e in
        let cs =
          copy_elements-Copies copy copies c.heap lo xs ws (omega (arith, c.grows))
            (kept elements c xs ws es) in
        then-Copied {RA = R} _ c (
          then-Copied {RA = elements} _ cs (
            pure-Copied elements cs.heap lo (c.value ∷ cs.value) (w ∷ ws)
              (kept R cs c.value w c.is, cs.is)))

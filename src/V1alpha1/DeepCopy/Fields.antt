-- ===== src/V1alpha1/DeepCopy/Fields.antt =====
-- A struct in which one field reaches other cells.
use atomix_operator.Base.{◌≡◌, ◌∙◌, ◌≤◌}
use atomix_operator.V1alpha1.DeepCopy.Heap.{Vendored, Addr, Heap, M, pure, ◌>>=◌}
use atomix_operator.V1alpha1.DeepCopy.Represents.{
  Same, Representation, Copies, pure-Copied, then-Copied,
}

-- The struct and its value have the field `get`, and `rest` is what else there is in them.
module _ {V : Vendored} {T W A B Rest : Type 0} (R : Representation V A B) (get : T → A)
    (value : W → B) (rest : T → Rest) (rest_value : W → Rest) where
  abbrev pub IsWithField : Heap V → Addr → Addr → T → W → Type 0
  IsWithField h lo hi x w = (rest x ≡ rest_value w) × R.Is h lo hi (get x) (value w)

  pub IsWithField-frame :
      (h g : Heap V) (lo hi lo' hi' : Addr) (x : T) (w : W)
      → lo' ≤ lo
      → hi ≤ hi'
      → Same lo hi h g
      → IsWithField h lo hi x w
      → IsWithField g lo' hi' x w
  IsWithField-frame h g lo hi lo' hi' x w below above same (e, is) =
      (e, R.frame h g lo hi lo' hi' (get x) (value w) below above same is)

  abbrev pub with_field : Representation V T W
  with_field = record { Is = IsWithField; frame = IsWithField-frame }

  pub with_field-Copies :
      (set : T → A → T) (copy : A → M V A)
      → ((x : T) (a : A) → get (set x a) ≡ a)
      → ((x : T) (a : A) → rest (set x a) ≡ rest x)
      → Copies R copy
      → Copies with_field (λ x. copy (get x) >>= λ a. pure (set x a))
  with_field-Copies set copy get-set rest-set copies h lo x w low (e, is) =
      let c = copies h lo (get x) (value w) low is in
      then-Copied {RA = R} _ c (
        pure-Copied with_field c.heap lo (set x c.value) w
          (rest-set x c.value ∙ e, rw (get-set x c.value) c.is))

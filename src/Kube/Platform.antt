-- ===== src/Kube/Platform.antt =====
-- What the operator calls of its vendored packages, apart from the API client: parameters, with
-- what it relies on stated beside them.
use atomix_operator.Base.{ℤ, String, ◌≡◌, Bool, Result, IsInt32}
use atomix_operator.Kube.Meta.{Foreign}
use atomix_operator.Kube.Pod.{IntOrString, int_type}

pub record Platform (F : Foreign) : Type 1 where
  -- The values of Go's `error` but nil, `fmt.Errorf` of a text, `errors.IsNotFound`.
  pub Error : Type 0
  pub errorf : String → Error
  pub is_not_found : Error → Bool
  -- `resource.ParseQuantity`
  pub parse_quantity : String → Result Error F.Quantity
  -- `intstr.FromInt`
  pub from_int : ℤ → IntOrString

-- `intstr.FromInt` keeps a value that fits `int32`.
pub record FromIntKeeps {F : Foreign} (P : Platform F) : Type 0 where
  pub from_int_lem :
      (n : ℤ) → IsInt32 n → P.from_int n ≡ record { type = int_type; int_val = n; str_val = "" }

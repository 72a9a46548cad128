-- ===== src/V1alpha1/Json.antt =====
-- JSON documents, and what the struct tags of pkg/apis/agent/v1alpha1 make of the resources. A tag
-- is read as encoding/json documents it; keys are matched as they are written, and a document has no
-- key twice. A number is a literal, which strconv reads and writes; its text is a parameter.
pub mod Codecs
pub mod Fields
pub mod Tags
pub mod Resources
pub mod Structs
pub mod Specs
pub mod RoundTrip
pub mod Unknown
pub mod Reading
pub mod Ranges
pub mod Values
pub mod Sections
use atomix_operator.Base.{
  ℕ, ℤ, pos, negsuc, ltb, ◌^◌, String, ◌==◌, Bool, Option, none, some, List, [], ◌∷◌, Result, ok,
  err, if◌then◌else◌,
}

-- The literals of numbers: an integer is written and read exactly, a float32 has a literal unless it
-- is infinite or not a number.
pub record Numbers : Type 1 where
  pub Number : Type 0
  pub of_ℤ : ℤ → Number
  pub to_ℤ : Number → Option ℤ
  pub of_float32 : ℕ → Option Number
  pub to_float32 : Number → Option ℕ

pub data JsonError : Type 0 where
  unmarshal_type unsupported_value : JsonError

module _ (N : Numbers) where
  mutual
    pub data Json : Type 0 where
      null : Json
      boolean : Bool → Json
      number : N.Number → Json
      text : String → Json
      array : Items → Json
      object : Members → Json

    pub data Items : Type 0 where
      nil : Items
      item : Json → Items → Items

    pub data Members : Type 0 where
      end : Members
      member : String → Json → Members → Members

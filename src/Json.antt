-- ===== src/Json.antt =====
-- include/mini_lsm/manifest.h and src/manifest.cpp, src/compact.cpp: nlohmann::json as the code
-- uses it. The library is a parameter; an exception that it throws is `none`.
pub mod Tasks
pub mod Records
pub mod RoundTrip
pub mod Tests
use Prim.Native.String.{String}
use text.Mathlib.Text.{◌==◌}
use mini_lsm_cpp.Prelude.{
  ℕ, zero, suc, Bool, true, false, List, [], ◌∷◌, Option, none, some, Bytes, ◌≡◌, if◌then◌else◌,
}
use mini_lsm_cpp.State.{Level}

pub record JsonLibrary : Type 1 where
  pub Json : Type 0
  pub null : Json
  pub of_size : ℕ → Json
  pub of_bool : Bool → Json
  pub of_sizes : List ℕ → Json
  -- A vector of pairs.
  pub of_levels : List Level → Json
  pub array : List Json → Json
  pub object : List (String × Json) → Json
  pub is_null : Json → Bool
  pub contains : Json → String → Bool
  pub at : Json → String → Option Json
  pub at_index : Json → ℕ → Option Json
  pub get_size : Json → Option ℕ
  pub get_bool : Json → Option Bool
  pub get_sizes : Json → Option (List ℕ)
  pub get_levels : Json → Option (List Level)
  pub dump : Json → Option Bytes
  pub parse : Bytes → Option Json

-- The fields of an object, by key.
unfoldable pub field {ℓ} : {A : Type ℓ} → String → List (String × A) → Option A
field k [] = none
field k ((name, v) ∷ fields) = if name == k then some v else field k fields

unfoldable pub element {ℓ} : {A : Type ℓ} → ℕ → List A → Option A
element i [] = none
element zero (x ∷ xs) = some x
element (suc i) (x ∷ xs) = element i xs

unfoldable pub is_some {ℓ} : {A : Type ℓ} → Option A → Bool
is_some none = false
is_some (some a) = true

-- What the code relies on: a value is read back as it was made, and an object and an array hold
-- what they were made of.
pub record JsonLaws (J : JsonLibrary) : Type 0 where
  pub null-is_null : J.is_null J.null ≡ true
  pub of_size-is_null : (n : ℕ) → J.is_null (J.of_size n) ≡ false
  pub get-of_size : (n : ℕ) → J.get_size (J.of_size n) ≡ some n
  pub get-of_bool : (b : Bool) → J.get_bool (J.of_bool b) ≡ some b
  pub get-of_sizes : (ids : List ℕ) → J.get_sizes (J.of_sizes ids) ≡ some ids
  pub get-of_levels : (levels : List Level) → J.get_levels (J.of_levels levels) ≡ some levels
  pub at-object :
      (fields : List (String × J.Json)) (k : String) → J.at (J.object fields) k ≡ field k fields
  pub contains-object :
      (fields : List (String × J.Json)) (k : String)
      → J.contains (J.object fields) k ≡ is_some (field k fields)
  pub at_index-array : (xs : List J.Json) (i : ℕ) → J.at_index (J.array xs) i ≡ element i xs

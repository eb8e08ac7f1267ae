-- ===== src/Json/Tests.antt =====
-- A JSON library whose texts are the sizes that the values hold.
use Prim.Native.String.{String}
use mini_lsm_cpp.Prelude.{
  ℕ, zero, suc, ◌≡◌, refl, Bool, true, false, List, [], ◌∷◌, Option, some, none, Bytes,
}
use mini_lsm_cpp.State.{Level}
use mini_lsm_cpp.Compact.{force_full}
use mini_lsm_cpp.Json.{JsonLibrary, JsonLaws, field, element, is_some}
use mini_lsm_cpp.Json.Records.{ManifestRecord, compaction, record_to_json, record_from_json}
use mini_lsm_cpp.Json.RoundTrip.{record_from_json-record_to_json}

mutual
  pub data Value : Type 0 where
    nothing : Value
    size : ℕ → Value
    flag : Bool → Value
    sizes : List ℕ → Value
    levels : List Level → Value
    items : Values → Value
    fields : Fields → Value

  pub data Values : Type 0 where
    nil : Values
    cons : Value → Values → Values

  pub data Fields : Type 0 where
    end : Fields
    entry : String → Value → Fields → Fields

abbrev pub of_values : List Value → Values
of_values [] = nil
of_values (x ∷ xs) = cons x (of_values xs)

abbrev pub to_values : Values → List Value
to_values nil = []
to_values (cons x xs) = x ∷ to_values xs

abbrev pub of_fields : List (String × Value) → Fields
of_fields [] = end
of_fields ((k, v) ∷ xs) = entry k v (of_fields xs)

abbrev pub to_fields : Fields → List (String × Value)
to_fields end = []
to_fields (entry k v xs) = (k, v) ∷ to_fields xs

abbrev pub fields_of : Value → List (String × Value)
fields_of (fields xs) = to_fields xs
fields_of _ = []

abbrev pub items_of : Value → List Value
items_of (items xs) = to_values xs
items_of _ = []

abbrev pub size_of : Value → Option ℕ
size_of (size n) = some n
size_of _ = none

abbrev pub flag_of : Value → Option Bool
flag_of (flag b) = some b
flag_of _ = none

abbrev pub sizes_of : Value → Option (List ℕ)
sizes_of (sizes ids) = some ids
sizes_of _ = none

abbrev pub levels_of : Value → Option (List Level)
levels_of (levels ls) = some ls
levels_of _ = none

abbrev pub is_nothing : Value → Bool
is_nothing nothing = true
is_nothing _ = false

-- Only the values of one size are written here.
abbrev pub written_as : ℕ → Option Value → Option Bytes → Option Bytes
written_as tag (some (size n)) rest = some (tag ∷ n ∷ [])
written_as tag _ rest = rest

abbrev pub written : Value → Option Bytes
written j =
    written_as 0 (field "Flush" (fields_of j))
      (written_as 1 (field "NewMemtable" (fields_of j)) none)

abbrev pub read : Bytes → Option Value
read (zero ∷ n ∷ []) = some (fields (entry "Flush" (size n) end))
read (suc zero ∷ n ∷ []) = some (fields (entry "NewMemtable" (size n) end))
read _ = none

abbrev pub library : JsonLibrary
library = record {
  Json = Value;
  null = nothing;
  of_size = size;
  of_bool = flag;
  of_sizes = sizes;
  of_levels = levels;
  array = λ xs. items (of_values xs);
  object = λ xs. fields (of_fields xs);
  is_null = is_nothing;
  contains = λ j k. is_some (field k (fields_of j));
  at = λ j k. field k (fields_of j);
  at_index = λ j i. element i (items_of j);
  get_size = size_of;
  get_bool = flag_of;
  get_sizes = sizes_of;
  get_levels = levels_of;
  dump = written;
  parse = read;
}

to-of_fields : (xs : List (String × Value)) → to_fields (of_fields xs) ≡ xs
to-of_fields [] = refl
to-of_fields ((k, v) ∷ xs) = rw (to-of_fields xs)

to-of_values : (xs : List Value) → to_values (of_values xs) ≡ xs
to-of_values [] = refl
to-of_values (x ∷ xs) = rw (to-of_values xs)

pub library_laws : JsonLaws library
library_laws = record {
  null-is_null = refl;
  of_size-is_null = λ n. refl;
  get-of_size = λ n. refl;
  get-of_bool = λ b. refl;
  get-of_sizes = λ ids. refl;
  get-of_levels = λ ls. refl;
  at-object = λ xs k. rw (to-of_fields xs);
  contains-object = λ xs k. rw (to-of_fields xs);
  at_index-array = λ xs i. rw (to-of_values xs);
}

abbrev pub full : ManifestRecord
full = compaction (force_full (record { l0_sstables = 2 ∷ 1 ∷ []; l1_sstables = [] })) (3 ∷ [])

record_from_json-record_to_json_example :
    record_from_json library (record_to_json library full) ≡ some full
record_from_json-record_to_json_example = record_from_json-record_to_json library library_laws full

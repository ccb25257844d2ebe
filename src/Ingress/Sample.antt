-- ===== src/Ingress/Sample.antt =====
-- A header map on which the theorems are run: a list of named values, where each text is the name it has
-- in lower case, and each value is a text.
use ferrotunnel.Base.{
  ◌≡◌, arith, List, [], ◌∷◌, some, if◌then◌else◌, ◌==◌, bytes_key, bytes_eqb_iff,
}
use ferrotunnel.Frame.{Bytes, Text}
use ferrotunnel.Ingress.{HeaderMap, to_lower}

abbrev pub Fields : Type 0
Fields = List (Text × Bytes)

abbrev pub values_of : Fields → Text → List Bytes
values_of [] name = []
values_of ((other, value) ∷ fields) name =
    if other == name then value ∷ values_of fields name else values_of fields name

abbrev pub without : Fields → Text → Fields
without [] name = []
without ((other, value) ∷ fields) name =
    if other == name then without fields name else (other, value) ∷ without fields name

pub values_of-without :
    (fields : Fields) (name other : Text)
    → values_of (without fields name) other ≡ (if name == other then [] else values_of fields other)
values_of-without [] name other = ground arith
values_of-without ((n, value) ∷ fields) name other = ground (
  arith,
  values_of-without fields name other,
  bytes_eqb_iff n name,
  bytes_eqb_iff name other,
  bytes_eqb_iff n other,
)

pub name_of-lower : (t name : Text) → some (to_lower t) ≡ some name → name ≡ to_lower t
name_of-lower t name h = ground arith

abbrev pub fields_map : HeaderMap Fields
fields_map = record {
  get_all = values_of;
  remove = without;
  to_str = λ value. some value;
  header_name = λ t. some (to_lower t);
  get_all-remove = values_of-without;
  header_name-lower = name_of-lower;
}

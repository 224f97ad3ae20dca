-- ===== src/Qt/Example.antt =====
-- A library of two identifiers, the null one and another, that has the facts of `UuidLibrary`.
use win_remote_control.Prelude.{
  ℕ, ◌≡◌, refl, Bool, true, false, not, List, [], ◌∷◌, String, str_eq, ◌==◌, length, byte_at,
}
use win_remote_control.Qt.{UuidLibrary}

abbrev pub sixteen : ℕ → List ℕ
sixteen n =
    n ∷ (n ∷ (n ∷ (n ∷ (n ∷ (n ∷ (n ∷ (n ∷ (n ∷ (n ∷ (n ∷ (n ∷ (n ∷ (n ∷ (n ∷ (n ∷ [])))))))))))))))

abbrev text_of : Bool → String
text_of true = "7"
text_of false = "0"

abbrev bytes_of : Bool → List ℕ
bytes_of true = sixteen 7
bytes_of false = sixteen 0

pub length-bytes_of : (u : Bool) → length (bytes_of u) ≡ 16
length-bytes_of true = refl
length-bytes_of false = refl

pub byte_at-bytes_of : (u : Bool) → (byte_at (bytes_of u) 0 == 7) ≡ u
byte_at-bytes_of true = refl
byte_at-bytes_of false = refl

pub str_eq-text_of : (u : Bool) → str_eq (text_of u) "7" ≡ u
str_eq-text_of true = refl
str_eq-text_of false = refl

abbrev pub two_uuids : UuidLibrary
two_uuids = record {
  Uuid = Bool;
  from_string = λ s. str_eq s "7";
  to_string = text_of;
  is_null = not;
  to_rfc4122 = bytes_of;
  from_rfc4122 = λ bytes. byte_at bytes 0 == 7;
  length-to_rfc4122 = length-bytes_of;
  from_rfc4122-to_rfc4122 = byte_at-bytes_of;
  from_string-to_string = str_eq-text_of;
}

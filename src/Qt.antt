-- ===== src/Qt.antt =====
-- What the program takes from Qt and does not implement, as records of operations and of the
-- documented facts that the code relies on.
pub mod Example
use win_remote_control.Prelude.{ℕ, ◌≡◌, Bool, List, String, length}

-- QUuid: its text, its sixteen bytes in the order of RFC 4122, and the null identifier.
pub record UuidLibrary : Type 1 where
  pub Uuid : Type 0
  pub from_string : String → Uuid
  pub to_string : Uuid → String  -- toString(QUuid::WithoutBraces)
  pub is_null : Uuid → Bool
  pub to_rfc4122 : Uuid → List ℕ
  pub from_rfc4122 : List ℕ → Uuid
  pub length-to_rfc4122 : (u : Uuid) → length (to_rfc4122 u) ≡ 16
  pub from_rfc4122-to_rfc4122 : (u : Uuid) → from_rfc4122 (to_rfc4122 u) ≡ u
  pub from_string-to_string : (u : Uuid) → from_string (to_string u) ≡ u

-- ===== src/Base/Throws.antt =====
-- C++ exceptions as values: a throwing operation returns `err` with the exception's class.

-- The standard exception classes that the program throws.
pub data Error : Type 0 where
  invalid_argument runtime_error logic_error : Error

pub data Result {ℓ} (V : Type ℓ) : Type ℓ where
  err : Error → Result V
  ok : V → Result V

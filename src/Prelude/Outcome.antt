-- ===== src/Prelude/Outcome.antt =====
-- std::variant<T, std::string>: a value, or an error message (the model names the message).
pub data Result {ℓ} (E A : Type ℓ) : Type ℓ where
  ok : A → Result E A
  err : E → Result E A

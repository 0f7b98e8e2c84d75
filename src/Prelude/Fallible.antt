-- ===== src/Prelude/Fallible.antt =====
-- What a Go function with results `(T, error)` returns: a value, or the text of an error.
use minicloud_platform.Prelude.Text.{Bytes}

pub data Fallible {ℓ} (A : Type ℓ) : Type ℓ where
  value : A → Fallible A
  failed : Bytes → Fallible A

-- ===== src/Util/Errors.antt =====
-- Go errors that the program tells apart, panic values, and the two ways in which a call ends.
use Prim.Native.String.{String}
use Prim.Native.Nat.{ℕ}

-- `deadline_exceeded` is context.DeadlineExceeded; `other` is any error made by errors.New elsewhere.
pub data GoError : Type 0 where
  deadline_exceeded circuit_open_error semaphore_rejected fallback_not_implemented unknown_panic :
      GoError
  other : String → GoError

-- What `panic` was given: an error, a string, or a value of another type.
pub data PanicValue : Type 0 where
  error_value : GoError → PanicValue
  text_value : String → PanicValue
  any_value : ℕ → PanicValue

pub data Call {ℓ} (A : Type ℓ) : Type ℓ where
  returned : A → Call A
  panicked : PanicValue → Call A

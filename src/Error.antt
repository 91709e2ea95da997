-- ===== src/Error.antt =====
-- evget/include/evget/error.h: the error type, `Result` as `std::expected`, and its combinators.
use evget.Prelude.{String, ◌<>◌}

pub data ErrorType : Type 0 where
  sqlite_error database_manager_error database_error event_handler_error async_error : ErrorType

pub record Error : Type 0 where
  pub error_type : ErrorType
  pub message : String

pub data Result {ℓ} (A : Type ℓ) : Type ℓ where
  ok : A → Result A
  err : Error → Result A

-- `std::expected::and_then` and `transform_error`
abbrev pub and_then {ℓ κ} : {A : Type ℓ} {B : Type κ} → Result A → (A → Result B) → Result B
and_then (ok a) f = f a
and_then (err e) f = err e

abbrev pub transform_error {ℓ} : {A : Type ℓ} → Result A → (Error → Error) → Result A
transform_error (ok a) f = ok a
transform_error (err e) f = err (f e)

-- The name of an error type, as the formatter writes it.
unfoldable pub error_type_name : ErrorType → String
error_type_name sqlite_error = "SqLiteError"
error_type_name database_manager_error = "DatabaseManagerError"
error_type_name database_error = "DatabaseError"
error_type_name event_handler_error = "EventHandlerError"
error_type_name async_error = "AsyncError"

-- std::formatter<Error>::format
unfoldable pub format_error : Error → String
unfolding error_type_name
format_error e = error_type_name e.error_type <> ": " <> e.message

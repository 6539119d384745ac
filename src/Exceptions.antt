-- ===== src/Exceptions.antt =====
-- libs/utils/src/exceptions: the HTTP exceptions that the application raises, and the other
-- exceptions that a call can end in.
use trash.Prelude.{ℕ, Option, some, Text, codes}

pub data NotFoundExceptionMessage : Type 0 where
  not_found operation_not_found : NotFoundExceptionMessage

pub data BadRequestExceptionMessage : Type 0 where
  bad_request user_already_exists password_is_not_valid : BadRequestExceptionMessage

pub data ForbiddenExceptionMessage : Type 0 where
  not_verify permission_denied wrong_password : ForbiddenExceptionMessage

pub data UnauthorizedExceptionMessage : Type 0 where
  invalid_session unauthorized : UnauthorizedExceptionMessage

-- The response of an `HttpException`: a text, or an object, whose `message` and `retryAfter` may
-- be missing.
pub data HttpResponse : Type 0 where
  text : Text → HttpResponse
  object : Option Text → Option ℕ → HttpResponse

pub record HttpException : Type 0 where
  pub status : ℕ
  pub response : HttpResponse

pub data Exception : Type 0 where
  -- an exception of the application, or of Nest
  http : HttpException → Exception
  -- a call of the database, the cache or the broker that failed
  call_failed : Exception
  -- the unique index on `users.email`
  unique_violation : Exception
  -- a `where` that names no column of the entity
  column_not_found : Exception
  -- `rollbackTransaction` or `commitTransaction` with no transaction open
  transaction_not_started : Exception
  -- a property of `undefined`
  type_error : Exception
  -- `JSON.parse`
  syntax_error : Exception

abbrev pub not_found_text : NotFoundExceptionMessage → Text
not_found_text not_found = codes "Errors.NotFound"
not_found_text operation_not_found = codes "Errors.OperationNotFound"

abbrev pub bad_request_text : BadRequestExceptionMessage → Text
bad_request_text bad_request = codes "Errors.BadRequest"
bad_request_text user_already_exists = codes "Errors.UserAlreadyExists"
bad_request_text password_is_not_valid =
    codes
      "Errors.Password must be at least 8 characters long and must contain at least one uppercase character, a number and a special character"

abbrev pub forbidden_text : ForbiddenExceptionMessage → Text
forbidden_text not_verify = codes "Errors.NotVerify"
forbidden_text permission_denied = codes "Errors.PermissionDenied"
forbidden_text wrong_password = codes "Errors.WrongPassword"

abbrev pub unauthorized_text : UnauthorizedExceptionMessage → Text
unauthorized_text invalid_session = codes "Errors.InvalidSession"
unauthorized_text unauthorized = codes "Errors.Unauthorized"

-- The constructors of `app.exceptions.ts`.
unfoldable pub not_found_exception : NotFoundExceptionMessage → Exception
not_found_exception m = http (record { status = 404; response = text (not_found_text m) })

unfoldable pub bad_request_exception : BadRequestExceptionMessage → Exception
bad_request_exception m = http (record { status = 400; response = text (bad_request_text m) })

unfoldable pub forbidden_exception : ForbiddenExceptionMessage → Exception
forbidden_exception m = http (record { status = 403; response = text (forbidden_text m) })

unfoldable pub unauthorized_exception : UnauthorizedExceptionMessage → Exception
unauthorized_exception m = http (record { status = 401; response = text (unauthorized_text m) })

unfoldable pub too_many_requests_exception : ℕ → Exception
too_many_requests_exception retry_after = http (record {
  status = 429;
  response = object (some (codes "Errors.TooManyRequests")) (some retry_after);
})

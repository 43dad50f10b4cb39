-- ===== src/Policy/Errors.antt =====
-- policy/errors.py, and the exceptions of httpx and asyncio that the package tells apart. The
-- tests follow the class hierarchies: `TooManyRedirects` and `TimeoutException` are `RequestError`s,
-- `HTTPStatusError` is not one, and `PrivateAddressError` is a `FetchError`.
use wbauth.Prelude.{ℕ, Bool, true, false}
use wbauth.Text.{Text}

-- An exception carries its text, an `HTTPStatusError` the status of its response. `request_error`
-- and `other` are all further classes, by name; `base_exception` is what is no `Exception`.
pub data Exception : Type 0 where
  robots_parse_error : Exception
  private_address_error fetch_error : Text → Exception
  http_status_error : ℕ → Exception
  too_many_redirects : Exception
  timeout_exception : Exception
  request_error : Text → Exception
  asyncio_timeout_error : Exception
  other : Text → Exception
  base_exception : Text → Exception

-- isinstance(_, httpx.RequestError)
abbrev pub is_request_error : Exception → Bool
is_request_error too_many_redirects = true
is_request_error timeout_exception = true
is_request_error (request_error name) = true
is_request_error _ = false

-- isinstance(_, Exception)
abbrev pub is_exception : Exception → Bool
is_exception (base_exception name) = false
is_exception _ = true

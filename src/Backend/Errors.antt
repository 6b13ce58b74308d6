-- ===== src/Backend/Errors.antt =====
-- backend/rust-api/src/error.rs: the errors of the API and their responses.
use civic_connect.Prelude.{ℕ, String}
use civic_connect.Prelude.Text.{append}

-- The errors of anyhow and sqlx keep no text here, since no response shows it.
pub data ApiError : Type 0 where
  invalid_credentials user_not_found event_not_found : ApiError
  invalid_input : String → ApiError
  rate_limited already_verified invalid_signature outside_time_window outside_location : ApiError
  unauthorized forbidden internal database : ApiError

pub record ErrorResponse : Type 0 where
  pub error : String
  pub code : String

-- `Display`
unfoldable pub show_error : ApiError → String
show_error invalid_credentials = "Invalid credentials"
show_error user_not_found = "User not found"
show_error event_not_found = "Event not found"
show_error (invalid_input text) = append "Invalid input: " text
show_error rate_limited = "Rate limited"
show_error already_verified = "Already verified"
show_error invalid_signature = "Invalid signature"
show_error outside_time_window = "Outside time window"
show_error outside_location = "Outside location"
show_error unauthorized = "Unauthorized"
show_error forbidden = "Forbidden"
show_error internal = "Internal server error"
show_error database = "Database error"

-- The number of a status and the code.
unfoldable pub status_and_code : ApiError → ℕ × String
status_and_code invalid_credentials = (401, "INVALID_CREDENTIALS")
status_and_code user_not_found = (404, "USER_NOT_FOUND")
status_and_code event_not_found = (404, "EVENT_NOT_FOUND")
status_and_code (invalid_input text) = (400, "INVALID_INPUT")
status_and_code rate_limited = (429, "RATE_LIMITED")
status_and_code already_verified = (409, "ALREADY_VERIFIED")
status_and_code invalid_signature = (400, "INVALID_SIGNATURE")
status_and_code outside_time_window = (400, "OUTSIDE_TIME_WINDOW")
status_and_code outside_location = (400, "OUTSIDE_LOCATION")
status_and_code unauthorized = (401, "UNAUTHORIZED")
status_and_code forbidden = (403, "FORBIDDEN")
status_and_code internal = (500, "INTERNAL_ERROR")
status_and_code database = (500, "DATABASE_ERROR")

unfoldable pub into_response : ApiError → ℕ × ErrorResponse
unfolding status_and_code show_error
into_response e =
    ((status_and_code e).0, record { error = show_error e; code = (status_and_code e).1 })

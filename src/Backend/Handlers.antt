-- ===== src/Backend/Handlers.antt =====
-- backend/rust-api/src/api: auth.rs, users.rs, verify.rs, events.rs and location.rs. The crate validator is a
-- parameter where it tests email addresses and gives the text of its errors. Identifiers are their texts,
-- times are numbers.
use civic_connect.Prelude.{
  ℕ, String, Bool, true, not, ◌&&◌, ◌||◌, Option, List, [], ◌∷◌, leb, eqb, if◌then◌else◌, length,
  Result, ok, err,
}
use Prim.Native.Char.{Char, code}
use Prim.Native.String as Str
use civic_connect.Prelude.Text.{text_length}
use civic_connect.Prelude.Bytes.{as_bytes}
use civic_connect.Backend.Errors.{
  ApiError, invalid_credentials, user_not_found, event_not_found, invalid_input, unauthorized,
  forbidden,
}

pub record RegisterRequest : Type 0 where
  pub email : String
  pub username : String
  pub password : String

pub record LoginRequest : Type 0 where
  pub email : String
  pub password : String

pub record AuthResponse : Type 0 where
  pub token : String
  pub user_id : String
  pub username : String
  pub level : ℕ

pub record UserProfile : Type 0 where
  pub id : String
  pub username : String
  pub level : ℕ
  pub events_attended : ℕ
  pub events_organized : ℕ
  pub member_since : String

pub record EventSummary : Type 0 where
  pub id : String
  pub title : String
  pub organizer_username : String
  pub organizer_level : ℕ
  pub start_time : ℕ
  pub location_cell : String
  pub attendee_count : ℕ
  pub capacity : Option ℕ
  pub tags : List String

pub record EventDetails : Type 0 where
  pub id : String
  pub title : String
  pub description : String
  pub organizer_id : String
  pub organizer_username : String
  pub organizer_level : ℕ
  pub start_time : ℕ
  pub end_time : ℕ
  pub location_cell : String
  pub attendee_count : ℕ
  pub capacity : Option ℕ
  pub tags : List String
  pub created_at : ℕ

pub record CreateEventRequest : Type 0 where
  pub title : String
  pub description : String
  pub start_time : ℕ
  pub end_time : ℕ
  pub location_cell : String
  pub capacity : Option ℕ
  pub tags : List String

pub record QrPayload : Type 0 where
  pub event_id : String
  pub organizer_id : String
  pub timestamp : ℕ
  pub nonce : String
  pub signature : String

pub record VerifyRequest : Type 0 where
  pub event_id : String
  pub organizer_id : String
  pub timestamp : ℕ
  pub nonce : String
  pub signature : String
  pub location_cell : String

pub record VerifyResponse : Type 0 where
  pub success : Bool
  pub xp_awarded : ℕ
  pub new_total_xp : ℕ
  pub level : ℕ
  pub level_up : Bool

pub record NearbyQuery : Type 0 where
  pub cell : String
  pub rings : ℕ
  pub upcoming_only : Bool

pub record NearbyResponse : Type 0 where
  pub events : List EventSummary
  pub cells_searched : List String
  pub total_count : ℕ

-- What is used of the crate validator.
pub record Validator : Type 0 where
  pub is_email : String → Bool
  pub register_errors : RegisterRequest → String
  pub login_errors : LoginRequest → String
  pub event_errors : CreateEventRequest → String

-- `length(min, max)` counts characters.
abbrev pub has_length : ℕ → ℕ → String → Bool
has_length least most s = leb least (text_length s) && leb (text_length s) most

module _ (v : Validator) where
  unfoldable pub register : RegisterRequest → Result ApiError AuthResponse
  register req =
      if v.is_email req.email && has_length 3 64 req.username && leb 12 (text_length req.password)
      then ok (record {
        token = "placeholder_token";
        user_id = "placeholder_id";
        username = req.username;
        level = 0;
      })
      else err (invalid_input (v.register_errors req))

  unfoldable pub login : LoginRequest → Result ApiError AuthResponse
  login req =
      if v.is_email req.email
      then err invalid_credentials
      else err (invalid_input (v.login_errors req))

  unfoldable pub create_event : CreateEventRequest → Result ApiError EventDetails
  create_event req =
      if has_length 3 200 req.title
        && leb (text_length req.description) 5000
        && eqb (text_length req.location_cell) 15
      then err forbidden
      else err (invalid_input (v.event_errors req))

unfoldable pub get_current_user : Result ApiError UserProfile
get_current_user = err unauthorized

unfoldable pub get_user : String → Result ApiError UserProfile
get_user id = err user_not_found

unfoldable pub list_events : Result ApiError (List EventSummary)
list_events = ok []

unfoldable pub get_event : String → Result ApiError EventDetails
get_event id = err event_not_found

unfoldable pub generate_qr : String → Result ApiError QrPayload
generate_qr event_id = err forbidden

unfoldable pub verify_attendance : VerifyRequest → Result ApiError VerifyResponse
verify_attendance req = err unauthorized

-- `char::is_ascii_hexdigit`
abbrev pub is_ascii_hexdigit : Char → Bool
is_ascii_hexdigit c =
    let n = code c in leb 48 n && leb n 57 || leb 65 n && leb n 70 || leb 97 n && leb n 102

abbrev pub all_hex : String → Bool
all_hex Str.[] = true
all_hex (Str.◌∷◌ c s) = is_ascii_hexdigit c && all_hex s

unfoldable pub nearby_events : NearbyQuery → Result ApiError NearbyResponse
nearby_events query =
    if not (eqb (length (as_bytes query.cell)) 15) || not (all_hex query.cell)
    then ok (record { events = []; cells_searched = []; total_count = 0 })
    else ok (record { events = []; cells_searched = query.cell ∷ []; total_count = 0 })

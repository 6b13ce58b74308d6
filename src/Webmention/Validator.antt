-- ===== src/Webmention/Validator.antt =====
-- indieweb2-bastion/services/webmention-rate-limiter/src/validator.rs: the validation of a request.
-- `url` is a parameter; the `None` of an error's text and of a header are `none`.
pub mod Domain
pub mod Decision
pub mod Registrable
pub mod Meaning
use civic_connect.Prelude.{
  String, Bool, true, false, not, ◌&&◌, ◌||◌, Option, none, some, List, [], ◌∷◌, map, reverse,
  if◌then◌else◌, ◌==◌,
}
use civic_connect.Prelude.Text.{append, is_empty, trim, split, join, contains}
use civic_connect.Webmention.Config.{ValidationConfig}
use civic_connect.Webmention.Url.{UrlLib}

-- `invalid_content_type expected actual`, `missing_parameter param`, `invalid_url param url`,
-- `self_ping_blocked domain`
pub data ValidationError : Type 0 where
  invalid_content_type : List String → Option String → ValidationError
  missing_parameter : String → ValidationError
  invalid_url : String → String → ValidationError
  self_ping_blocked : String → ValidationError

pub data ValidationResult : Type 0 where
  valid : ValidationResult
  invalid : ValidationError → ValidationResult

-- `{:?}` of a list of texts and of an optional text, from that of a text
abbrev pub debug_items : (String → String) → List String → String
debug_items debug [] = ""
debug_items debug (x ∷ []) = debug x
debug_items debug (x ∷ y ∷ ys) = append (debug x) (append ", " (debug_items debug (y ∷ ys)))

abbrev pub debug_option : (String → String) → Option String → String
debug_option debug none = "None"
debug_option debug (some s) = append "Some(" (append (debug s) ")")

-- `Display` of an error
unfoldable pub show_error : (String → String) → ValidationError → String
show_error debug (invalid_content_type expected actual) =
    append "Invalid Content-Type: expected one of ["
      (append (debug_items debug expected) (append "], got " (debug_option debug actual)))
show_error debug (missing_parameter param) = append "Missing required parameter: " param
show_error debug (invalid_url param url) =
    append "Invalid URL format for " (append param (append ": " url))
show_error debug (self_ping_blocked domain) =
    append "Self-ping blocked: source and target share domain " domain

abbrev pub is_valid : ValidationResult → Bool
is_valid valid = true
is_valid (invalid e) = false

abbrev pub error : ValidationResult → Option ValidationError
error valid = none
error (invalid e) = some e

abbrev pub is_two_part_tld : String → Bool
is_two_part_tld suffix =
    contains
      ("co.uk" ∷ "org.uk" ∷ "me.uk" ∷ "co.nz" ∷ "co.jp" ∷ "co.kr" ∷ "com.au" ∷ "net.au" ∷ "org.au"
        ∷ "com.br" ∷ "co.za" ∷ [])
      suffix

-- The domain of a host from its parts, the last one first.
unfoldable pub domain_of_parts : String → List String → String
domain_of_parts host (last ∷ second ∷ third ∷ rest) =
    let last_two = join "." (second ∷ last ∷ []) in
    if is_two_part_tld last_two then join "." (third ∷ last_two ∷ []) else last_two
domain_of_parts host _ = host

abbrev pub first : String → List String → String
first d [] = d
first d (p ∷ ps) = p

abbrev pub allowed_scheme : String → Bool
allowed_scheme s = s == "http" || s == "https"

-- `Some(s) if !s.trim().is_empty()`
unfoldable pub given : Option String → Option String
given none = none
given (some s) = if is_empty (trim s) then none else some s

module _ (u : UrlLib) where
  -- `extract_registrable_domain` of a host already in lower case
  unfoldable pub domain_of : String → String
  domain_of host = elim (u.parse_ip host) [
    | some ip ↦ host
    | none ↦ domain_of_parts host (reverse (split "." host))
  ]

  unfoldable pub extract_registrable_domain : String → String
  extract_registrable_domain host = domain_of (u.to_lowercase host)

  unfoldable pub media_type : String → String
  media_type s = u.to_lowercase (trim (first s (split ";" s)))

  unfoldable pub validate_content_type : ValidationConfig → Option String → ValidationResult
  validate_content_type config none =
      invalid (invalid_content_type config.require_content_type none)
  validate_content_type config (some s) =
      let actual = media_type s in
      if contains (map u.to_lowercase config.require_content_type) actual
      then valid
      else invalid (invalid_content_type config.require_content_type (some actual))

  -- `host_str()` of a URL whose scheme is allowed.
  unfoldable pub usable_host : u.Url → Option String
  usable_host url = if allowed_scheme (u.scheme url) then u.host_str url else none

  unfoldable pub check_self_ping : ValidationConfig → String → String → ValidationResult
  check_self_ping config source_host target_host =
      let source_domain = extract_registrable_domain source_host in
      if config.block_self_ping && source_domain == extract_registrable_domain target_host
      then invalid (self_ping_blocked source_domain)
      else valid

  unfoldable pub check_hosts : ValidationConfig → String → u.Url → String → u.Url → ValidationResult
  check_hosts config source source_url target target_url = elim (usable_host source_url) [
    | none ↦ invalid (invalid_url "source" source)
    | some source_host ↦ elim (usable_host target_url) [
      | none ↦ invalid (invalid_url "target" target)
      | some target_host ↦ check_self_ping config source_host target_host
    ]
  ]

  unfoldable pub check_urls : ValidationConfig → String → String → ValidationResult
  check_urls config source target = elim (u.parse source) [
    | none ↦ invalid (invalid_url "source" source)
    | some source_url ↦ elim (u.parse target) [
      | none ↦ invalid (invalid_url "target" target)
      | some target_url ↦ check_hosts config source source_url target target_url
    ]
  ]

  unfoldable pub validate_source_target :
      ValidationConfig → Option String → Option String → ValidationResult
  validate_source_target config source target =
      if not config.require_source_target then valid else elim (given source) [
        | none ↦ invalid (missing_parameter "source")
        | some s ↦ elim (given target) [
          | none ↦ invalid (missing_parameter "target")
          | some t ↦ check_urls config s t
        ]
      ]

  unfoldable pub validate :
      ValidationConfig → Option String → Option String → Option String → ValidationResult
  validate config content_type source target =
      let ct_result = validate_content_type config content_type in
      if not (is_valid ct_result) then ct_result else validate_source_target config source target

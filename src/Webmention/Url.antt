-- ===== src/Webmention/Url.antt =====
-- What the services use of the `url` crate, and `str::to_lowercase`, whose table of Unicode is not
-- under this repository. `parse_ip` is the standard library's `str::parse::<IpAddr>`.
use civic_connect.Prelude.{ℕ, String, Option}

pub data IpAddr : Type 0 where
  v4 v6 : ℕ → IpAddr

pub record UrlLib : Type 1 where
  pub Url : Type 0
  -- `Url::parse`, with `none` for an error
  pub parse : String → Option Url
  pub scheme : Url → String
  pub host_str : Url → Option String
  -- `set_query(None)`, `set_fragment(None)`
  pub clear_query : Url → Url
  pub clear_fragment : Url → Url
  -- `set_host(Some(host))`, with `none` for an error, which leaves the URL as it was
  pub set_host : String → Url → Option Url
  pub to_string : Url → String
  pub to_lowercase : String → String
  pub parse_ip : String → Option IpAddr

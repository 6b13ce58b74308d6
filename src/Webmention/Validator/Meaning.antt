-- ===== src/Webmention/Validator/Meaning.antt =====
-- indieweb2-bastion/services/webmention-rate-limiter/src/validator.rs: what a valid request is, in words
-- of texts and lists.
use civic_connect.Prelude.{
  String, ◌≡◌, refl, sym, ap, subst, ◌∙◌, ◌≢◌, ◌↔◌, ◌⊎◌, inl, inr, true, false, Option, none, some,
  List, [], ◌∷◌, map, eq_iff, Bool-cases, All,
}
use native.Mathlib.Omega.{arith}
use Prim.Native.String as Str
use civic_connect.Prelude.Text.{
  is_empty, trim, has_char, split, join, In, contains-In, In-contains, split-join,
}
use civic_connect.Prelude.Pieces.{pieces}
use civic_connect.Webmention.Config.{ValidationConfig}
use civic_connect.Webmention.Url.{UrlLib}
use civic_connect.Webmention.Validator.{
  valid, first, allowed_scheme, given, usable_host, media_type, extract_registrable_domain,
  validate,
}
use civic_connect.Webmention.Validator.Registrable.{IsDomain, IsDomain-extract, extract-IsDomain}
use civic_connect.Webmention.Validator.Decision.{
  AcceptsType, Fetches, AcceptsLink, validate_steps_iff,
}

empty-cases : (s : String) → ((is_empty s ≡ true) × (s ≡ "")) ⊎ ((is_empty s ≡ false) × (s ≢ ""))
empty-cases Str.[] = inl (refl, refl)
empty-cases (Str.◌∷◌ c s) = inr (refl, λ e. cc e)

module _ (u : UrlLib) where
  -- The type, what stands before the first semicolon without white space around it, is one of those
  -- required, whatever the case of either.
  abbrev pub HasType : ValidationConfig → Option String → Type 0
  HasType config content_type =
      (s : String) × (kind : String) × (parameters : List String) × (required : String)
      × (content_type ≡ some s)
      × (s ≡ join ";" (kind ∷ parameters))
      × All (λ p. has_char ";" p ≡ false) (kind ∷ parameters)
      × In required config.require_content_type
      × (u.to_lowercase required ≡ u.to_lowercase (trim kind))

  -- The text is given, not blank, and an http or https URL of the host.
  abbrev pub IsWebUrl : Option String → String → Type 0
  IsWebUrl text host =
      (s : String) × (url : u.Url) × (text ≡ some s)
      × (trim s ≢ "")
      × (u.parse s ≡ some url)
      × ((u.scheme url ≡ "http") ⊎ (u.scheme url ≡ "https"))
      × (u.host_str url ≡ some host)

  abbrev pub HasLink : ValidationConfig → Option String → Option String → Type 0
  HasLink config source target =
      (a : String) × (b : String) × (d : String) × (e : String) × IsWebUrl source a
      × IsWebUrl target b
      × IsDomain u a d
      × IsDomain u b e
      × ((config.block_self_ping ≡ false) ⊎ (d ≢ e))

  In-map :
      (m : String) (xs : List String)
      → In m (map u.to_lowercase xs) ↔ ((x : String) × In x xs × (u.to_lowercase x ≡ m))
  In-map m [] = (λ i. absurd i, λ h. absurd h.1)
  In-map m (x ∷ xs) = (
    λ i. elim i [
      | inl e ↦ (x, inl refl, e)
      | inr later ↦ (let (y, j, e) = (In-map m xs).0 later in (y, inr j, e))
    ],
    λ (y, i, e). elim i [
      | inl same ↦ inl (ap u.to_lowercase same ∙ e)
      | inr later ↦ inr ((In-map m xs).1 (y, later, e))
    ],
  )

  type_meaning :
      (config : ValidationConfig) (content_type : Option String)
      → AcceptsType u config content_type ↔ HasType config content_type
  unfolding media_type
  type_meaning config content_type = (
    λ (s, given_as, listed).
        (let p = pieces ";" s in
          let head : first s (split ";" s) ≡ p.head = ap (first s) p.split-eq in
          let (required, i, e) = (In-map (media_type u s) config.require_content_type).0 (
            contains-In (map u.to_lowercase config.require_content_type) (media_type u s) listed) in
          (
            s,
            p.head,
            p.tail,
            required,
            given_as,
            sym p.join-eq,
            p.plain,
            i,
            e ∙ ap (λ x. u.to_lowercase (trim x)) head,
          )),
    λ (s, kind, ps, required, given_as, written, plain, i, e).
        (let head : first s (split ";" s) ≡ kind =
            ap (first s) (ap (split ";") written ∙ split-join ";" kind ps plain) in
          (
            s,
            given_as,
            In-contains (map u.to_lowercase config.require_content_type) (media_type u s) (
                (In-map (media_type u s) config.require_content_type).1
                  (required, i, e ∙ sym (ap (λ x. u.to_lowercase (trim x)) head))),
          )),
  )

  scheme_iff :
      (scheme : String) → (allowed_scheme scheme ≡ true) ↔ ((scheme ≡ "http") ⊎ (scheme ≡ "https"))
  scheme_iff scheme = (
    λ h. ground (arith, h, eq_iff scheme "http", eq_iff scheme "https"),
    λ h. ground (arith, h, eq_iff scheme "http", eq_iff scheme "https"),
  )

  given_iff :
      (text : Option String) (s : String)
      → (given text ≡ some s) ↔ ((text ≡ some s) × (trim s ≢ ""))
  unfolding given
  given_iff none s = (λ e. absurd (cc e), λ h. absurd (cc h.0))
  given_iff (some t) s = elim (empty-cases (trim t)) [
    | inl (blank, e) ↦ (
      λ h. absurd (let h' = rw blank at h in cc h'),
      λ h. absurd (h.1 (subst (λ x. trim x ≡ "") (cc h.0) e)),
    )
    | inr (full, e) ↦ (
      λ h. (rw full at h, subst (λ x. trim x ≢ "") (let h' = rw full at h in cc h') e),
      λ h. rw full h.0,
    )
  ]

  usable_iff :
      (url : u.Url) (host : String)
      → (usable_host u url ≡ some host)
        ↔ (((u.scheme url ≡ "http") ⊎ (u.scheme url ≡ "https")) × (u.host_str url ≡ some host))
  unfolding usable_host
  usable_iff url host = elim (Bool-cases (allowed_scheme (u.scheme url))) [
    | inl web ↦ (λ e. ((scheme_iff (u.scheme url)).0 web, (rw web at e)), λ h. rw web h.1)
    | inr other ↦ (
      λ e. absurd (let e' = rw other at e in cc e'),
      λ h. absurd (cc ((scheme_iff (u.scheme url)).1 h.0, other)),
    )
  ]

  url_meaning : (text : Option String) (host : String) → Fetches u text host ↔ IsWebUrl text host
  url_meaning text host = (
    λ (s, url, g, p, h).
        (let (t, full) = (given_iff text s).0 g in
          let (web, named) = (usable_iff url host).0 h in (s, url, t, full, p, web, named)),
    λ (s, url, t, full, p, web, named).
        (s, url, (given_iff text s).1 (t, full), p, (usable_iff url host).1 (web, named)),
  )

  link_meaning :
      (config : ValidationConfig) (source target : Option String)
      → AcceptsLink u config source target ↔ HasLink config source target
  link_meaning config source target = (
    λ (a, b, s, t, differ). (
      a,
      b,
      extract_registrable_domain u a,
      extract_registrable_domain u b,
      (url_meaning source a).0 s,
      (url_meaning target b).0 t,
      extract-IsDomain u a,
      extract-IsDomain u b,
      differ,
    ),
    λ (a, b, d, e, s, t, has_d, has_e, differ). (
      a,
      b,
      (url_meaning source a).1 s,
      (url_meaning target b).1 t,
      elim differ [
        | inl off ↦ inl off
        | inr apart ↦ inr (λ same.
            apart (sym (IsDomain-extract u a d has_d) ∙ same ∙ IsDomain-extract u b e has_e))
      ],
    ),
  )

  -- A request is valid exactly when its content type is, up to what follows a semicolon and to case and
  -- white space, a required one and, where source and target are required, both are given as http or
  -- https URLs with a host, which have different registrable domains where self-pings are blocked.
  pub validate_iff :
      (config : ValidationConfig) (content_type source target : Option String)
      → (validate u config content_type source target ≡ valid) ↔ (
          HasType config content_type
          × ((config.require_source_target ≡ true) → HasLink config source target))
  validate_iff config content_type source target =
      let steps = validate_steps_iff u config content_type source target in
      let typed = type_meaning config content_type in
      let linked = link_meaning config source target in
      (
        λ e. (typed.0 (steps.0 e).0, λ on. linked.0 ((steps.0 e).1 on)),
        λ h. steps.1 (typed.1 h.0, λ on. linked.1 (h.1 on)),
      )

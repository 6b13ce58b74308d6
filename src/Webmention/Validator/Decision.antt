-- ===== src/Webmention/Validator/Decision.antt =====
-- indieweb2-bastion/services/webmention-rate-limiter/src/validator.rs: which requests are valid.
use civic_connect.Prelude.{
  String, ◌≡◌, ◌≢◌, ◌↔◌, ◌⊎◌, inl, inr, refl, sym, ◌∙◌, Bool, true, false, not, Option, none, some,
  List, [], ◌∷◌, map, All, if◌then◌else◌, arith, Bool-cases, Option-cases, eq_iff, ◌==◌, ◌&&◌,
}
use civic_connect.Prelude.Text.{contains}
use civic_connect.Webmention.Config.{ValidationConfig}
use civic_connect.Webmention.Url.{UrlLib}
use civic_connect.Webmention.Validator.{
  ValidationResult, valid, invalid, self_ping_blocked, is_valid, given, is_two_part_tld,
  usable_host, media_type, extract_registrable_domain, validate_content_type, check_self_ping,
  check_hosts, check_urls, validate_source_target, validate,
}
use civic_connect.Webmention.Validator.Domain.{
  IsLabel, under, host_of, domain, IsName, extract_registrable_domain-under,
  extract_registrable_domain-pair, domain-plain, empty-IsLabel, host_of-final_dot,
}

skip : (b : Bool) (x : ValidationResult) → b ≡ true → (if not b then valid else x) ≡ x
skip b x h = ground arith

both :
    (r q : ValidationResult)
    → (if not (is_valid r) then r else q) ≡ valid
    → (r ≡ valid) × (q ≡ valid)
both valid q e = (refl, e)
both (invalid x) q e = absurd (cc e)

chain :
    (r q : ValidationResult) → r ≡ valid → q ≡ valid → (if not (is_valid r) then r else q) ≡ valid
chain r q e f = rw (e, f) refl

blocked_for :
    (block : Bool) (x y d : String)
    → block ≡ true
    → x ≡ d
    → y ≡ d
    → (if block && x == y then invalid (self_ping_blocked x) else valid)
      ≡ invalid (self_ping_blocked d)
blocked_for block x y d on e f = ground (arith, eq_iff x y)

module _ (u : UrlLib) where
  -- The media type is one of those required, whatever the case of either.
  abbrev pub AcceptsType : ValidationConfig → Option String → Type 0
  AcceptsType config content_type =
      (s : String) × (content_type ≡ some s)
      × (contains (map u.to_lowercase config.require_content_type) (media_type u s) ≡ true)

  -- The text is given and a URL that can be fetched, of the host.
  abbrev pub Fetches : Option String → String → Type 0
  Fetches text host =
      (s : String) × (url : u.Url) × (given text ≡ some s)
      × (u.parse s ≡ some url)
      × (usable_host u url ≡ some host)

  abbrev pub Differs : ValidationConfig → String → String → Type 0
  Differs config a b =
      (config.block_self_ping ≡ false)
      ⊎ (extract_registrable_domain u a ≢ extract_registrable_domain u b)

  -- Both are URLs that can be fetched, of different domains where self-pings are blocked.
  abbrev pub AcceptsLink : ValidationConfig → Option String → Option String → Type 0
  AcceptsLink config source target =
      (a b : String) × Fetches source a × Fetches target b × Differs config a b

  module _ (config : ValidationConfig) where
    type_iff :
        (content_type : Option String)
        → (validate_content_type u config content_type ≡ valid) ↔ AcceptsType config content_type
    unfolding validate_content_type
    type_iff none = (λ e. cc, λ h. cc)
    type_iff (some s) = (λ e. (s, refl, ground arith), λ h. ground (arith, h))

    Differs-iff : (a b : String) → (check_self_ping u config a b ≡ valid) ↔ Differs config a b
    unfolding check_self_ping
    Differs-iff a b = (
      λ e. ground (arith, eq_iff (extract_registrable_domain u a) (extract_registrable_domain u b)),
      λ h.
          ground
            (arith, h, eq_iff (extract_registrable_domain u a) (extract_registrable_domain u b)),
    )

    check_hosts-usable_host :
        (s t : String) (su tu : u.Url) (a b : String)
        → usable_host u su ≡ some a
        → usable_host u tu ≡ some b
        → check_hosts u config s su t tu ≡ check_self_ping u config a b
    unfolding check_hosts
    check_hosts-usable_host s t su tu a b ea eb = rw (ea, check_hosts, eb) refl

    check_urls-parse :
        (s t : String) (su tu : u.Url)
        → u.parse s ≡ some su
        → u.parse t ≡ some tu
        → check_urls u config s t ≡ check_hosts u config s su t tu
    unfolding check_urls
    check_urls-parse s t su tu ea eb = rw (check_urls, ea, eb) refl

    hosts_to :
        (s t : String) (su tu : u.Url)
        → check_hosts u config s su t tu ≡ valid
        → (a b : String) × (usable_host u su ≡ some a)
          × (usable_host u tu ≡ some b)
          × Differs config a b
    unfolding check_hosts
    hosts_to s t su tu e = elim (Option-cases (usable_host u su)) [
      | inl gone ↦ absurd (let f = rw (check_hosts, gone) at e in cc f)
      | inr (a, ea) ↦ elim (Option-cases (usable_host u tu)) [
        | inl gone ↦ absurd (let f = rw (check_hosts, ea, gone) at e in cc f)
        | inr (b, eb) ↦ (
          a,
          b,
          ea,
          eb,
          (Differs-iff a b).0 (sym (check_hosts-usable_host s t su tu a b ea eb) ∙ e),
        )
      ]
    ]

    urls_to :
        (source target : Option String) (s t : String)
        → given source ≡ some s
        → given target ≡ some t
        → check_urls u config s t ≡ valid
        → AcceptsLink config source target
    unfolding check_urls
    urls_to source target s t es et e = elim (Option-cases (u.parse s)) [
      | inl gone ↦ absurd (let f = rw (check_urls, gone) at e in cc f)
      | inr (su, esu) ↦ elim (Option-cases (u.parse t)) [
        | inl gone ↦ absurd (let f = rw (check_urls, esu, gone) at e in cc f)
        | inr (tu, etu) ↦
            (let (a, b, ea, eb, d) =
                hosts_to s t su tu (sym (check_urls-parse s t su tu esu etu) ∙ e) in
              (a, b, (s, su, es, esu, ea), (t, tu, et, etu, eb), d))
      ]
    ]

    link_to :
        (source target : Option String)
        → config.require_source_target ≡ true
        → validate_source_target u config source target ≡ valid
        → AcceptsLink config source target
    unfolding validate_source_target
    link_to source target on e' =
        let e = sym (skip config.require_source_target _ on) ∙ e' in
        elim (Option-cases (given source)) [
          | inl gone ↦ absurd (let f = rw gone at e in cc f)
          | inr (s, es) ↦ elim (Option-cases (given target)) [
            | inl gone ↦ absurd (let f = rw (es, gone) at e in cc f)
            | inr (t, et) ↦ urls_to source target s t es et (rw (es, et) at e)
          ]
        ]

    link_from :
        (source target : Option String) (a b : String)
        → config.require_source_target ≡ true
        → Fetches source a
        → Fetches target b
        → validate_source_target u config source target ≡ check_self_ping u config a b
    unfolding validate_source_target
    link_from source target a b on (s, su, es, esu, ea) (t, tu, et, etu, eb) =
        skip config.require_source_target _ on
        ∙ rw (es, et) (check_urls-parse s t su tu esu etu)
        ∙ check_hosts-usable_host s t su tu a b ea eb

    unchecked :
        (source target : Option String)
        → config.require_source_target ≡ false
        → validate_source_target u config source target ≡ valid
    unfolding validate_source_target
    unchecked source target off = ground (arith, off)

    link_iff :
        (source target : Option String)
        → (validate_source_target u config source target ≡ valid)
          ↔ ((config.require_source_target ≡ true) → AcceptsLink config source target)
    link_iff source target = (
      λ e on. link_to source target on e,
      λ h. elim (Bool-cases config.require_source_target) [
        | inl on ↦
            (let (a, b, s, t, d) = h on in
              link_from source target a b on s t ∙ (Differs-iff a b).1 d)
        | inr off ↦ unchecked source target off
      ],
    )

    -- The steps of the code that a valid request passes.
    pub validate_steps_iff :
        (content_type source target : Option String)
        → (validate u config content_type source target ≡ valid) ↔ (
            AcceptsType config content_type
            × ((config.require_source_target ≡ true) → AcceptsLink config source target))
    unfolding validate
    validate_steps_iff content_type source target =
        ((
          λ e.
              (let (typed, linked) = both _ _ e in
                ((type_iff content_type).0 typed, (link_iff source target).0 linked)),
          λ h. chain _ _ ((type_iff content_type).1 h.0) ((link_iff source target).1 h.1),
        ))

    -- A self-ping is blocked: where it is checked, a source and a target whose hosts are names of at
    -- least three labels with the last three in common are refused for their registrable domain.
    pub subdomains_blocked :
        (source target : Option String) (front front' : List String) (third second last : String)
        → config.require_source_target ≡ true
        → config.block_self_ping ≡ true
        → All IsLabel (under front third second last)
        → All IsLabel (under front' third second last)
        → IsName u (host_of (under front third second last))
        → IsName u (host_of (under front' third second last))
        → Fetches source (host_of (under front third second last))
        → Fetches target (host_of (under front' third second last))
        → validate_source_target u config source target
          ≡ invalid (self_ping_blocked (domain third second last))
    unfolding check_self_ping
    subdomains_blocked source target f f' c b a on block l l' n n' s t =
        link_from source target (host_of (under f c b a)) (host_of (under f' c b a)) on s t
        ∙ blocked_for config.block_self_ping _ _ (domain c b a) block
            (extract_registrable_domain-under u f c b a l n)
            (extract_registrable_domain-under u f' c b a l' n')

    -- A final dot evades the check: a source on the host `x.y` and a target on the same host written
    -- `x.y.` pass, self-pings blocked or not, when both are required, the hosts are names of labels
    -- without dots, `x` is not empty and `y.` is not listed as a two-part domain.
    pub final_dot_passes :
        (source target : Option String) (x y : String)
        → x ≢ ""
        → All IsLabel (x ∷ y ∷ [])
        → is_two_part_tld (host_of (y ∷ "" ∷ [])) ≡ false
        → IsName u (host_of (x ∷ y ∷ []))
        → IsName u (host_of (x ∷ y ∷ "" ∷ []))
        → config.require_source_target ≡ true
        → Fetches source (host_of (x ∷ y ∷ []))
        → Fetches target (host_of (x ∷ y ∷ "" ∷ []))
        → validate_source_target u config source target ≡ valid
    final_dot_passes source target x y full labels plain n n' on s t =
        link_from source target (host_of (x ∷ y ∷ [])) (host_of (x ∷ y ∷ "" ∷ [])) on s t
        ∙ (Differs-iff (host_of (x ∷ y ∷ [])) (host_of (x ∷ y ∷ "" ∷ []))).1 (
            inr (λ e. host_of-final_dot x y full labels (
              sym (extract_registrable_domain-pair u x y labels n)
              ∙ e
              ∙ extract_registrable_domain-under u [] x y ""
                  (labels.0, (labels.1.0, (empty-IsLabel, tt))) n'
              ∙ domain-plain x y "" plain)))

-- ===== src/Updater/Offers.antt =====
-- What a configuration, a release that `fetchUpdate` returns and a payload that `downloadUpdate`
-- verifies have passed.
use wow_markets.Base.{
  ◌≡◌, refl, sym, ap, ◌∙◌, subst, ◌+◌, true, not, ◌&&◌, Option, none, some, Bool-cases, inl, inr,
  length, leb, ok, require, wrap, or_error, >>=-eq-ok, wrap-eq-ok, ok_inj, require-eq-ok, List,
  is_empty, codes, if◌then◌else◌,
}
use mathlib.Core.Option.{some-injective}
use wow_markets.Base.Int.{pos, eq_ℤ, leb_ℤ}
use wow_markets.Base.Strings.{Text}
use wow_markets.Updatefeed.Select.{Target, Release, select}
use wow_markets.Updatefeed.Feed.{
  Channel, stable, channel_text, parse_channel, parse_signed, verify_artifact,
}
use wow_markets.Updater.{
  invalid_channel, length_out_of_range, length_differs, artifact_unverified, feed_too_large,
  feed_unverified, not_selected, UpdateConfiguration, Build,
}
use wow_markets.Updater.Configuration.{
  origin_value, staging_root, compiled_public_key, validate_update_origin, configuration_at,
  update_configuration, validate_release,
}
use wow_markets.Updater.Fetch.{
  Response, maximum_appcast_bytes, maximum_artifact_bytes, read_limited, byte_limit, feed_body,
  artifact_body, validated, fetch_update, receive, staged_path,
}

module _ (build : Build) where
  abbrev pub Configured : UpdateConfiguration → Type 0
  Configured configuration =
      (channel : Text) × (update_configuration build channel ≡ ok (some configuration))

  -- The path is the same for every channel.
  pub record IsStagedPath (path : Text) : Type 0 where
    pub target : Target
    pub asset_name : Text
    pub root : Text
    pub platform : build.platform_target ≡ some (target, asset_name)
    pub at_root : staging_root build ≡ ok root
    pub joined : path ≡ build.join (build.join root (codes "updates")) asset_name

  configuration_at-IsStagedPath :
      (channel : Channel) (value : Text) (c : UpdateConfiguration)
      (platform : Option (Target × Text))
      → build.platform_target ≡ platform
      → configuration_at build channel value platform ≡ ok (some c)
      → IsStagedPath (staged_path build c)
  unfolding configuration_at
  configuration_at-IsStagedPath channel value c none p h =
      let (origin, _, h₁) = >>=-eq-ok (validate_update_origin build.parse_url value _) _ h in
      let (key, _, h₂) = >>=-eq-ok (compiled_public_key build) _ h₁ in cc
  configuration_at-IsStagedPath channel value c (some (target, asset_name)) p h =
      let (origin, _, h₁) = >>=-eq-ok (validate_update_origin build.parse_url value _) _ h in
      let (key, _, h₂) = >>=-eq-ok (compiled_public_key build) _ h₁ in
      let (root, at_root, last) = >>=-eq-ok (staging_root build) _ h₂ in
      subst (λ q. IsStagedPath (staged_path build q)) (some-injective _ c (ok_inj last))
        (record {
          target = target;
          asset_name = asset_name;
          root = root;
          platform = p;
          at_root = at_root;
          joined = refl;
        })

  pub Configured-IsStagedPath :
      (c : UpdateConfiguration) → Configured c → IsStagedPath (staged_path build c)
  unfolding update_configuration
  Configured-IsStagedPath c (value, h) =
      let name = if is_empty value then channel_text stable else value in
      let (channel, _, h₁) = >>=-eq-ok (or_error (parse_channel name) (invalid_channel name)) _ h in
      elim (Bool-cases (is_empty (origin_value build))) [
        | inl y ↦ cc (rw y at h₁)
        | inr n ↦
            configuration_at-IsStagedPath channel (origin_value build) c build.platform_target refl
              (rw n at h₁)
      ]

  pub staged_path_unique : (p q : Text) → IsStagedPath p → IsStagedPath q → p ≡ q
  staged_path_unique p q a b =
      let same = some-injective _ _ (sym a.platform ∙ b.platform) in
      let root = ok_inj (sym a.at_root ∙ b.at_root) in
      a.joined
      ∙ ap (λ r. build.join (build.join r (codes "updates")) a.asset_name) root
      ∙ ap (λ (t : Target × Text). build.join (build.join b.root (codes "updates")) t.1) same
      ∙ sym b.joined

  -- A release of a signed feed, the newest for the target, whose asset stands at its own path.
  pub record Offered (c : UpdateConfiguration) (release : Release) : Type 0 where
    pub configured : Configured c
    pub payload : Text
    pub releases : List Release
    pub signed : parse_signed build.crypto payload c.public_key ≡ ok releases
    pub chosen : select releases c.version c.target ≡ ok (some release)
    pub trusted : validate_release build.parse_url release c ≡ ok tt

  pub fetch_update-Offered :
      (c : UpdateConfiguration) (response : Response) (release : Release)
      → Configured c
      → fetch_update build c response ≡ ok (some release)
      → Offered c release
  unfolding fetch_update
  fetch_update-Offered c response release configured h =
      let (body, _, h₁) = >>=-eq-ok (feed_body response) _ h in
      let (payload, _, h₂) = >>=-eq-ok (read_limited (maximum_appcast_bytes + 1) body) _ h₁ in
      let (_, _, h₃) =
        >>=-eq-ok (require (leb (length payload) maximum_appcast_bytes) feed_too_large) _ h₂ in
      let (releases, signed, h₄) =
        >>=-eq-ok (wrap feed_unverified (parse_signed build.crypto payload c.public_key)) _ h₃ in
      let (chosen, selected, h₅) =
        >>=-eq-ok (wrap not_selected (select releases c.version c.target)) _ h₄ in
      let (same, trusted) = validated-some chosen c release h₅ in
      record {
        configured = configured;
        payload = payload;
        releases = releases;
        signed = wrap-eq-ok feed_unverified _ signed;
        chosen = wrap-eq-ok not_selected _ selected ∙ ap ok same;
        trusted = trusted;
      }
    where
      validated-some :
          (chosen : Option Release) (c : UpdateConfiguration) (release : Release)
          → validated build chosen c ≡ ok (some release)
          → (chosen ≡ some release) × (validate_release build.parse_url release c ≡ ok tt)
      validated-some none c release h = cc
      validated-some (some r) c release h =
          let (_, passed, last) = >>=-eq-ok (validate_release build.parse_url r c) _ h in
          let same = some-injective r release (ok_inj last) in
          (ap some same, subst (λ q. validate_release build.parse_url q c ≡ ok tt) same passed)

  -- The bytes of an offered release of that version, of its length and signed.
  pub record Genuine (payload version : Text) : Type 0 where
    pub configuration : UpdateConfiguration
    pub release : Release
    pub offered : Offered configuration release
    pub named : version ≡ release.version
    pub sized : eq_ℤ (pos (length payload)) release.length ≡ true
    pub verified :
        verify_artifact build.crypto payload release.signature configuration.public_key ≡ ok tt

  pub receive-Genuine :
      (c : UpdateConfiguration) (release : Release) (response : Response) (payload : Text)
      → Offered c release
      → receive build c release response ≡ ok payload
      → Genuine payload release.version
  unfolding receive
  receive-Genuine c release response payload offered h =
      let (_, _, h₁) =
        >>=-eq-ok
          (require
            (not (leb_ℤ release.length (pos 0))
              && leb_ℤ release.length (pos maximum_artifact_bytes))
            length_out_of_range)
          _ h in
      let (body, _, h₂) = >>=-eq-ok (artifact_body response) _ h₁ in
      let (bytes, _, h₃) = >>=-eq-ok (read_limited (byte_limit release.length) body) _ h₂ in
      let (_, sized, h₄) =
        >>=-eq-ok
          (require (eq_ℤ (pos (length bytes)) release.length)
            (length_differs (length bytes) release.length))
          _ h₃ in
      let (_, verified, last) =
        >>=-eq-ok
          (wrap artifact_unverified
            (verify_artifact build.crypto bytes release.signature c.public_key))
          _ h₄ in
      subst (λ q. Genuine q release.version) (ok_inj last)
        (record {
          configuration = c;
          release = release;
          offered = offered;
          named = refl;
          sized = require-eq-ok _ _ sized;
          verified = wrap-eq-ok artifact_unverified _ verified;
        })

-- ===== src/Updatefeed/Feed/Signed.antt =====
-- What a feed that `ParseSigned` accepts is, and that `Select` can read every release of one.
use wow_markets.Updatefeed.Feed.Block.{
  split_last-append, split_last-last, before_first-append, or_error-eq-ok, Declared,
  signature_field, length_field, read_lines-Declared,
}
use wow_markets.Base.{
  ℕ, ◌≤◌, ◌≢◌, ◌⊎◌, ◌∙◌, sym, is_empty, if◌then◌else◌, wrap-eq-ok, ◌≡◌, refl, ap, subst, Bool, true,
  false, List, [], ◌∷◌, ◌++◌, Option, none, some, Bool-cases, inl, inr, All, ◌==◌, ==_iff, length,
  ok, require, reject, wrap, or_error, >>=-eq-ok, ok_inj, require-eq-ok,
}
use wow_markets.Base.Int.{pos, leb_ℤ, eq_ℤ, eq_ℤ_iff}
use wow_markets.Base.Numbers.{parse_int64}
use wow_markets.Base.Strings.{Text, trim_space, split}
use wow_markets.Updatefeed.Version.{Version, parse_version}
use wow_markets.Updatefeed.Select.{
  Target, Release, Selected, consider, matches, select_from, selected_release, select,
}
use wow_markets.Updatefeed.Feed.{
  Item, Crypto, FeedError, signature_prefix, signature_suffix, public_key_size, signature_size,
  unsigned, incomplete_block, malformed_signature, declared_length_differs, split_last,
  before_first, read_lines, decode_signature, split_signed_content, read_release, read_releases,
  has_items, first_of, parse_signed, wrong_key_length, signature_invalid, bad_xml, no_releases,
  invalid_length, bad_release_version, invalid_url, invalid_artifact_signature,
}

pos_inj : {m n : ℕ} → pos m ≡ pos n → m ≡ n
pos_inj h = cc

has_items-ne : (items : List Item) → has_items items ≡ true → items ≢ []
has_items-ne [] h e = cc
has_items-ne (item ∷ items) h e = cc

reject-eq-ok : (b : Bool) (e : FeedError) → reject b e ≡ ok tt → b ≡ false
reject-eq-ok false e h = refl
reject-eq-ok true e h = cc

-- A release has a version that is read, and a length that is positive.
pub record GoodRelease (r : Release) : Type 0 where
  pub number : Version
  pub parsed : parse_version r.version ≡ some number
  pub positive : leb_ℤ r.length (pos 0) ≡ false

-- The first of two texts that is not empty when it is trimmed.
abbrev pub FirstOf : Text → Text → Text → Type 0
FirstOf a b text =
    ((trim_space a ≢ []) × (text ≡ trim_space a)) ⊎ ((trim_space a ≡ []) × (text ≡ trim_space b))

first_of-FirstOf : (a b : Text) → FirstOf a b (first_of a b)
first_of-FirstOf a b = go (trim_space a) (trim_space b)
  where
    go :
        (a b : Text)
        → ((a ≢ []) × ((if is_empty a then b else a) ≡ a))
          ⊎ ((a ≡ []) × ((if is_empty a then b else a) ≡ b))
    go [] b = inr (refl, refl)
    go (c ∷ a) b = inl ((λ h. cc), refl)

module _ (crypto : Crypto) where
  -- The release is what an item of the feed says, and its artifact's signature can be one.
  pub record ReadFrom (item : Item) (r : Release) : Type 0 where
    pub good : GoodRelease r
    pub version_is : FirstOf item.short_version item.version r.version
    pub build_is : FirstOf item.enclosure_version item.version r.build_version
    pub length_is : parse_int64 (trim_space item.enclosure_length) ≡ some r.length
    pub url_is : r.url ≡ trim_space item.enclosure_url
    pub url_valid : crypto.valid_url item.enclosure_url ≡ true
    pub signature_is : r.signature ≡ trim_space item.enclosure_signature
    pub signature : Text
    pub decoded : crypto.decode_base64 r.signature ≡ some signature
    pub size : length signature ≡ signature_size
    pub os_is : r.os ≡ trim_space item.enclosure_os
    pub arch_is : r.arch ≡ trim_space item.enclosure_arch
    pub mandatory_is : r.mandatory ≡ item.mandatory

  abbrev pub AllRead : List Item → List Release → Type 0
  AllRead [] [] = Unit
  AllRead [] (r ∷ rs) = ⊥
  AllRead (item ∷ items) [] = ⊥
  AllRead (item ∷ items) (r ∷ rs) = ReadFrom item r × AllRead items rs

  -- The payload is a content, a signature block that is the last to start, and a rest. The block
  -- declares the content's length and its signature by the key, and the releases are the items of
  -- the content.
  pub record SignedFeed (payload public_key : Text) (releases : List Release) : Type 0 where
    pub content : Text
    pub block : Text
    pub rest : Text
    pub around : payload ≡ content ++ signature_prefix ++ (block ++ signature_suffix ++ rest)
    pub is_last : (x y : Text) → payload ≡ x ++ signature_prefix ++ y → length x ≤ length content
    pub text : Text
    pub signature : Text
    pub declared : (text ≡ []) ⊎ Declared signature_field text (split b'\n' block)
    pub decoded : crypto.decode_base64 text ≡ some signature
    pub declared_length :
        (length content ≡ 0)
        ⊎ ((digits : Text) × Declared length_field digits (split b'\n' block)
            × (parse_int64 digits ≡ some (pos (length content))))
    pub key_size : length public_key ≡ public_key_size
    pub size : length signature ≡ signature_size
    pub verified : crypto.verify public_key content signature ≡ true
    pub items : List Item
    pub content_items : crypto.decode_items content ≡ ok items
    pub some_items : items ≢ []
    pub all_read : AllRead items releases

  decode_signature-decoded :
      (text s : Text) (e : FeedError)
      → decode_signature crypto text e ≡ ok s
      → (crypto.decode_base64 text ≡ some s) × (length s ≡ signature_size)
  unfolding decode_signature
  decode_signature-decoded text s e h =
      let (t, decoded, rest) = >>=-eq-ok (or_error (crypto.decode_base64 text) e) _ h in
      let (_, size, last) = >>=-eq-ok (require (length t == signature_size) e) _ rest in
      (
        or_error-eq-ok (crypto.decode_base64 text) e t decoded ∙ ap some (ok_inj last),
        subst (λ q. length q ≡ signature_size) (ok_inj last)
            ((==_iff (length t) signature_size).0 (require-eq-ok _ e size)),
      )

  read_release-ReadFrom :
      (item : Item) (r : Release) → read_release crypto item ≡ ok r → ReadFrom item r
  unfolding read_release
  read_release-ReadFrom item r h =
      let version = first_of item.short_version item.version in
      let (n, parsed_length, h₁) =
        >>=-eq-ok
          (or_error (parse_int64 (trim_space item.enclosure_length)) (invalid_length item.version))
          _ h in
      let (_, positive, h₂) =
        >>=-eq-ok (reject (leb_ℤ n (pos 0)) (invalid_length item.version)) _ h₁ in
      let (v, read, h₃) =
        >>=-eq-ok (or_error (parse_version version) (bad_release_version version)) _ h₂ in
      let (_, valid, h₄) =
        >>=-eq-ok (require (crypto.valid_url item.enclosure_url) (invalid_url item.version)) _ h₃ in
      let (t, decoded, last) =
        >>=-eq-ok
          (decode_signature crypto (trim_space item.enclosure_signature)
            (invalid_artifact_signature item.version))
          _ h₄ in
      let (text, size) = decode_signature-decoded _ t _ decoded in
      subst (ReadFrom item) (ok_inj last) (record {
        good = record {
          number = v;
          parsed = or_error-eq-ok (parse_version version) _ v read;
          positive = reject-eq-ok (leb_ℤ n (pos 0)) _ positive;
        };
        version_is = first_of-FirstOf item.short_version item.version;
        build_is = first_of-FirstOf item.enclosure_version item.version;
        length_is = or_error-eq-ok _ _ n parsed_length;
        url_is = refl;
        url_valid = require-eq-ok _ _ valid;
        signature_is = refl;
        signature = t;
        decoded = text;
        size = size;
        os_is = refl;
        arch_is = refl;
        mandatory_is = refl;
      })

  read_releases-AllRead :
      (items : List Item) (rs : List Release)
      → read_releases crypto items ≡ ok rs
      → AllRead items rs
  unfolding read_releases
  read_releases-AllRead [] rs h = subst (AllRead []) (ok_inj h) tt
  read_releases-AllRead (item ∷ items) rs h =
      let (r, first, rest) = >>=-eq-ok (read_release crypto item) _ h in
      let (more, others, last) = >>=-eq-ok (read_releases crypto items) _ rest in
      subst (AllRead (item ∷ items)) (ok_inj last)
        (read_release-ReadFrom item r first, read_releases-AllRead items more others)

  AllRead-good : (items : List Item) (rs : List Release) → AllRead items rs → All GoodRelease rs
  AllRead-good [] [] all = tt
  AllRead-good [] (r ∷ rs) all = elim all [ ]
  AllRead-good (item ∷ items) [] all = elim all [ ]
  AllRead-good (item ∷ items) (r ∷ rs) (first, more) = (first.good, AllRead-good items rs more)

  -- The content and the signature, as the payload has them.
  abbrev Splits : Text → Text × Text → Type 0
  Splits payload (content, signature) =
      (block rest text : Text) × (payload
        ≡ content ++ signature_prefix ++ (block ++ signature_suffix ++ rest))
      × ((x y : Text) → payload ≡ x ++ signature_prefix ++ y → length x ≤ length content)
      × ((text ≡ []) ⊎ Declared signature_field text (split b'\n' block))
      × (crypto.decode_base64 text ≡ some signature)
      × (length signature ≡ signature_size)
      × ((length content ≡ 0)
          ⊎ ((digits : Text) × Declared length_field digits (split b'\n' block)
              × (parse_int64 digits ≡ some (pos (length content)))))

  split_signed_content-Splits :
      (payload : Text) (o : Text × Text)
      → split_signed_content crypto payload ≡ ok o
      → Splits payload o
  unfolding split_signed_content
  split_signed_content-Splits payload o h =
      let ((before, tail), found, h₁) =
        >>=-eq-ok (or_error (split_last signature_prefix payload) unsigned) _ h in
      let (block, ended, h₂) =
        >>=-eq-ok (or_error (before_first signature_suffix tail) incomplete_block) _ h₁ in
      let ((text, declared), read, h₃) =
        >>=-eq-ok (read_lines (split b'\n' block) ([], pos 0)) _ h₂ in
      let (_, fits, h₄) =
        >>=-eq-ok
          (require (eq_ℤ declared (pos (length before)))
            (declared_length_differs declared (length before)))
          _ h₃ in
      let (s, decoded, last) = >>=-eq-ok (decode_signature crypto text malformed_signature) _ h₄ in
      let split_at = or_error-eq-ok (split_last signature_prefix payload) _ (before, tail) found in
      let (rest, behind) =
        before_first-append signature_suffix tail block (or_error-eq-ok _ _ block ended) in
      let front = split_last-append signature_prefix payload before tail split_at in
      let fields = read_lines-Declared (split b'\n' block) [] (pos 0) text declared read in
      let (bytes, size) = decode_signature-decoded text s malformed_signature decoded in
      let long = (eq_ℤ_iff declared (pos (length before))).0 (require-eq-ok _ _ fits) in
      subst (Splits payload) (ok_inj last) (
        block,
        rest,
        text,
        front ∙ ap (λ t. before ++ signature_prefix ++ t) behind,
        (λ x y. split_last-last signature_prefix payload before tail x y split_at),
        fields.0,
        bytes,
        size,
        elim (fields.1) [
          | inl zero ↦ inl (pos_inj (sym long ∙ zero))
          | inr (digits, line, parsed) ↦ inr (digits, line, parsed ∙ ap some long)
        ],
      )

  -- A feed that `ParseSigned` accepts is a content, a signature block that is the last to start,
  -- and a rest. The content is signed by the key, both of the sizes of ed25519, with the signature
  -- whose base64 a line of the block declares, or is empty where none does; a line declares the
  -- length of the content, unless that is zero. The releases are the items of the XML of the
  -- content, at least one, in their order: each has the version, the address, the positive length,
  -- the signature and the target of its item, with a version that is read, an address that is
  -- valid and a signature of the size of ed25519.
  pub parse_signed-SignedFeed :
      (payload public_key : Text) (releases : List Release)
      → parse_signed crypto payload public_key ≡ ok releases
      → SignedFeed payload public_key releases
  unfolding parse_signed
  parse_signed-SignedFeed payload public_key releases h =
      let ((content, signature), read, h₁) = >>=-eq-ok (split_signed_content crypto payload) _ h in
      let (_, key_size, h₂) =
        >>=-eq-ok (require (length public_key == public_key_size) wrong_key_length) _ h₁ in
      let (_, verified, h₃) =
        >>=-eq-ok (require (crypto.verify public_key content signature) signature_invalid) _ h₂ in
      let (items, decoded, h₄) = >>=-eq-ok (wrap bad_xml (crypto.decode_items content)) _ h₃ in
      let (_, has, h₅) = >>=-eq-ok (require (has_items items) no_releases) _ h₄ in
      let (block, rest, text, around, is_last, declared, bytes, size, declared_length) =
        split_signed_content-Splits payload (content, signature) read in
      record {
        content = content;
        block = block;
        rest = rest;
        around = around;
        is_last = is_last;
        text = text;
        signature = signature;
        declared = declared;
        decoded = bytes;
        declared_length = declared_length;
        key_size = (==_iff (length public_key) public_key_size).0 (require-eq-ok _ _ key_size);
        size = size;
        verified = require-eq-ok _ _ verified;
        items = items;
        content_items = wrap-eq-ok bad_xml _ decoded;
        some_items = has_items-ne items (require-eq-ok _ _ has);
        all_read = read_releases-AllRead items releases h₅;
      }

select_from-Good :
    (target : Target) (current : Version) (selected : Selected) (rs : List Release)
    → All GoodRelease rs
    → (s : Selected) × (select_from target current selected rs ≡ ok s)
unfolding select_from
select_from-Good target current selected [] good = (selected, refl)
select_from-Good target current selected (r ∷ rs) (g, good) = elim (Bool-cases (matches target r)) [
  | inr other ↦ rw (other, select_from) (select_from-Good target current selected rs good)
  | inl same ↦
      rw (same, g.parsed, select_from)
        (select_from-Good target current (consider current r g.number selected) rs good)
]

-- On the releases of a feed that `ParseSigned` accepts, and a current version that is read,
-- `Select` ends without an error.
pub select-parse_signed :
    (crypto : Crypto) (payload public_key current : Text) (releases : List Release)
    (target : Target) (v : Version)
    → parse_signed crypto payload public_key ≡ ok releases
    → parse_version current ≡ some v
    → (chosen : Option Release) × (select releases current target ≡ ok chosen)
unfolding select
select-parse_signed crypto payload public_key current releases target v h p =
    let feed = parse_signed-SignedFeed crypto payload public_key releases h in
    let (s, chosen) =
      select_from-Good target v none releases
        (AllRead-good crypto feed.items releases feed.all_read) in
    (selected_release s, rw (p, chosen, select) refl)

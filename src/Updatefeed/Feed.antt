-- ===== src/Updatefeed/Feed.antt =====
-- `ParseSigned`, `splitSignedContent`, `ParseChannel` and `VerifyArtifact` of `feed.go`. The payload is its bytes.
pub mod Block
pub mod Signed
use wow_markets.Base.{
  ℕ, zero, suc, ◌+◌, Bool, true, false, not, ◌&&◌, ◌||◌, List, [], ◌∷◌, ◌++◌, Option, none, some,
  leb, ◌==◌, if◌then◌else◌, length, drop, Result, ok, err, ◌>>=◌, ◌>>◌, require, reject, wrap,
  or_error, codes, str_eq, is_empty,
}
use mathlib.Core.List.{reverse}
use wow_markets.Base.Int.{ℤ, pos, eq_ℤ, leb_ℤ}
use wow_markets.Base.Numbers.{parse_int64}
use wow_markets.Base.Strings.{Text, to_lower, trim_space, cut, split, has_prefix}
use wow_markets.Updatefeed.Version.{Version, parse_version}
use wow_markets.Updatefeed.Select.{Release}

abbrev pub signature_prefix : Text
signature_prefix = codes "<!-- sparkle-signatures:\n"

abbrev pub signature_suffix : Text
signature_suffix = codes "-->"

pub data Channel : Type 0 where
  stable beta : Channel

abbrev pub channel_text : Channel → Text
channel_text stable = codes "stable"
channel_text beta = codes "beta"

-- `none` is its error, which names the value.
unfoldable pub parse_channel : Text → Option Channel
parse_channel value =
    let name = to_lower (trim_space value) in
    if str_eq name (codes "stable")
    then some stable
    else if str_eq name (codes "beta")
    then some beta
    else none

-- The sizes of ed25519.
abbrev pub public_key_size : ℕ
public_key_size = 32

abbrev pub signature_size : ℕ
signature_size = 64

-- `item` with its `enclosure`.
pub record Item : Type 0 where
  pub title : Text
  pub published_at : Text
  pub version : Text
  pub short_version : Text
  pub notes_url : Text
  pub mandatory : Bool
  pub enclosure_url : Text
  pub enclosure_length : Text
  pub enclosure_version : Text
  pub enclosure_signature : Text
  pub enclosure_os : Text
  pub enclosure_arch : Text

-- `ed25519.Verify` of key, content and signature, `base64`, the items of the XML, and whether
-- `url.ParseRequestURI` takes a text.
pub record Crypto : Type 0 where
  pub verify : Text → Text → Text → Bool
  pub decode_base64 : Text → Option Text
  pub decode_items : Text → Result Text (List Item)
  pub valid_url : Text → Bool

pub data FeedError : Type 0 where
  unsigned incomplete_block invalid_declared_length malformed_signature : FeedError
  declared_length_differs : ℤ → ℕ → FeedError
  wrong_key_length signature_invalid no_releases : FeedError
  bad_xml : Text → FeedError
  invalid_length invalid_url invalid_artifact_signature : Text → FeedError
  bad_release_version : Text → FeedError
  malformed_artifact_signature artifact_signature_invalid : FeedError

-- `bytes.LastIndex`: what is in front of the last occurrence of the pattern, and what is behind.
unfoldable pub split_last : Text → Text → Option (Text × Text)
split_last pattern [] = if has_prefix [] pattern then some ([], []) else none
split_last pattern (c ∷ cs) = elim (split_last pattern cs) [
  | some (before, after) ↦ some (c ∷ before, after)
  | none ↦ if has_prefix (c ∷ cs) pattern then some ([], drop (length pattern) (c ∷ cs)) else none
]

-- `bytes.Index`: what is in front of the first occurrence.
unfoldable pub before_first : Text → Text → Option Text
before_first pattern [] = if has_prefix [] pattern then some [] else none
before_first pattern (c ∷ cs) =
    if has_prefix (c ∷ cs) pattern
    then some []
    else elim (before_first pattern cs) [ some before ↦ some (c ∷ before) | none ↦ none ]

-- The encodings of the runes that are spaces, in bytes.
abbrev pub one_byte : ℕ → Bool
one_byte a = (leb 9 a && leb a 13) || a == 0x20

abbrev pub two_bytes : ℕ → ℕ → Bool
two_bytes a b = a == 0xc2 && (b == 0x85 || b == 0xa0)

abbrev pub three_bytes : ℕ → ℕ → ℕ → Bool
three_bytes a b c =
    (a == 0xe1 && b == 0x9a && c == 0x80)
    || (a == 0xe2
        && b == 0x80
        && ((leb 0x80 c && leb c 0x8a) || c == 0xa8 || c == 0xa9 || c == 0xaf))
    || (a == 0xe2 && b == 0x81 && c == 0x9f)
    || (a == 0xe3 && b == 0x80 && c == 0x80)

-- How many bytes the space has that a text starts with, and one that it ends with, read backwards.
abbrev pub first_size : ℕ → ℕ → ℕ → ℕ
first_size a b c =
    if one_byte a then 1 else if two_bytes a b then 2 else if three_bytes a b c then 3 else 0

abbrev pub last_size : ℕ → ℕ → ℕ → ℕ
last_size a b c =
    if one_byte a then 1 else if two_bytes b a then 2 else if three_bytes c b a then 3 else 0

abbrev pub space_size : (ℕ → ℕ → ℕ → ℕ) → Text → ℕ
space_size size [] = 0
space_size size (a ∷ []) = size a 0 0
space_size size (a ∷ b ∷ []) = size a b 0
space_size size (a ∷ b ∷ c ∷ _) = size a b c

-- The text without the spaces at its head, behind as many bytes of a space as are given.
unfoldable pub drop_spaces : (ℕ → ℕ → ℕ → ℕ) → ℕ → Text → Text
drop_spaces size n [] = []
drop_spaces size (suc n) (c ∷ cs) = drop_spaces size n cs
drop_spaces size zero (c ∷ cs) = elim (space_size size (c ∷ cs)) [
  | zero ↦ c ∷ cs
  | suc n ↦ drop_spaces size n cs
]

-- `strings.TrimSpace` on the bytes of a text.
unfoldable pub trim_bytes : Text → Text
trim_bytes s = reverse (drop_spaces last_size 0 (reverse (drop_spaces first_size 0 s)))

-- One round of the loop over the lines: the signature's text and the declared length.
unfoldable pub read_line : Text → Text × ℤ → Result FeedError (Text × ℤ)
read_line line (signature, declared) =
    let (name, value, found) = cut b':' line in
    if not found
    then ok (signature, declared)
    else if str_eq (trim_bytes name) (codes "edSignature")
    then ok (trim_bytes value, declared)
    else if str_eq (trim_bytes name) (codes "length")
    then (or_error (parse_int64 (trim_bytes value)) invalid_declared_length >>= λ n.
        ok (signature, n))
    else ok (signature, declared)

unfoldable pub read_lines : List Text → Text × ℤ → Result FeedError (Text × ℤ)
read_lines [] fields = ok fields
read_lines (line ∷ lines) fields = read_line line fields >>= read_lines lines

-- `if first == "" { first = second }`, of trimmed texts.
abbrev pub first_of : Text → Text → Text
first_of a b = if is_empty (trim_space a) then trim_space b else trim_space a

abbrev pub has_items : List Item → Bool
has_items [] = false
has_items (_ ∷ _) = true

module _ (crypto : Crypto) where
  unfoldable pub decode_signature : Text → FeedError → Result FeedError Text
  decode_signature text e = do
    signature ← or_error (crypto.decode_base64 text) e
    require (length signature == signature_size) e
    ok signature

  -- The content and its signature.
  unfoldable pub split_signed_content : Text → Result FeedError (Text × Text)
  split_signed_content payload = do
    (content, block) ← or_error (split_last signature_prefix payload) unsigned
    lines ← or_error (before_first signature_suffix block) incomplete_block
    (signature_text, declared) ← read_lines (split b'\n' lines) ([], pos 0)
    require (eq_ℤ declared (pos (length content)))
        (declared_length_differs declared (length content))
    signature ← decode_signature signature_text malformed_signature
    ok (content, signature)

  unfoldable pub read_release : Item → Result FeedError Release
  read_release item = do
    let semantic_version = first_of item.short_version item.version
    length ← or_error (parse_int64 (trim_space item.enclosure_length)) (invalid_length item.version)
    reject (leb_ℤ length (pos 0)) (invalid_length item.version)
    _ ← or_error (parse_version semantic_version) (bad_release_version semantic_version)
    require (crypto.valid_url item.enclosure_url) (invalid_url item.version)
    _ ←
        decode_signature (trim_space item.enclosure_signature)
          (invalid_artifact_signature item.version)
    ok (record {
      build_version = first_of item.enclosure_version item.version;
      version = semantic_version;
      title = trim_space item.title;
      published_at = trim_space item.published_at;
      notes_url = trim_space item.notes_url;
      url = trim_space item.enclosure_url;
      length = length;
      signature = trim_space item.enclosure_signature;
      os = trim_space item.enclosure_os;
      arch = trim_space item.enclosure_arch;
      mandatory = item.mandatory;
    })

  unfoldable pub read_releases : List Item → Result FeedError (List Release)
  read_releases [] = ok []
  read_releases (item ∷ items) = do
    release ← read_release item
    releases ← read_releases items
    ok (release ∷ releases)

  unfoldable pub parse_signed : Text → Text → Result FeedError (List Release)
  parse_signed payload public_key = do
    (content, signature) ← split_signed_content payload
    require (length public_key == public_key_size) wrong_key_length
    require (crypto.verify public_key content signature) signature_invalid
    items ← wrap bad_xml (crypto.decode_items content)
    require (has_items items) no_releases
    read_releases items

  unfoldable pub verify_artifact : Text → Text → Text → Result FeedError (Unit {0})
  verify_artifact payload signature_text public_key = do
    signature ← decode_signature (trim_space signature_text) malformed_artifact_signature
    require (crypto.verify public_key payload signature) artifact_signature_invalid

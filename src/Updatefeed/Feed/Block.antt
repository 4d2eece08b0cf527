-- ===== src/Updatefeed/Feed/Block.antt =====
-- `splitSignedContent` of `feed.go`: where the signature's block is, and what its lines declare.
use wow_markets.Base.{
  suc, ◌≤◌, ◌≡◌, ◌⊎◌, refl, sym, ap, ◌∙◌, subst, Bool, true, false, List, [], ◌∷◌, ◌++◌, Option,
  none, some, Option-cases, Bool-cases, inl, inr, not, str_eq, str_eq_iff, length, drop, ok,
  or_error, >>=-eq-ok, ok_inj, arith, codes,
}
use mathlib.Core.Option.{some-injective}
use wow_markets.Base.Int.{ℤ}
use wow_markets.Base.Numbers.{parse_int64}
use wow_markets.Base.Strings.{Text, cut, has_prefix, prefix-drop, append-has_prefix}
use wow_markets.Updatefeed.Feed.{
  FeedError, invalid_declared_length, split_last, before_first, trim_bytes, read_line, read_lines,
}

ends : (p : Text) → has_prefix [] p ≡ true → ◌≡◌ {A = Text} [] ([] ++ p ++ [])
unfolding has_prefix
ends [] h = refl
ends (c ∷ p) h = cc

-- The text is what is in front of the pattern, the pattern, and what is behind it.
pub split_last-append : (p s b a : Text) → split_last p s ≡ some (b, a) → s ≡ b ++ p ++ a
unfolding split_last
split_last-append p [] b a h = elim (Bool-cases (has_prefix [] p)) [
  | inl y ↦
      subst (λ (o : Text × Text). [] ≡ o.0 ++ p ++ o.1)
        (some-injective ([], []) (b, a) (rw (y, split_last) at h)) (ends p y)
  | inr n ↦ cc (rw (n, split_last) at h)
]
split_last-append p (c ∷ s) b a h = elim (Option-cases (split_last p s)) [
  | inr ((before, after), e) ↦
      subst (λ (o : Text × Text). c ∷ s ≡ o.0 ++ p ++ o.1)
        (some-injective (c ∷ before, after) (b, a) (rw (e, split_last) at h))
        (ap (λ t. c ∷ t) (split_last-append p s before after e))
  | inl none_of ↦ elim (Bool-cases (has_prefix (c ∷ s) p)) [
    | inl y ↦
        subst (λ (o : Text × Text). c ∷ s ≡ o.0 ++ p ++ o.1)
          (some-injective ([], drop (length p) (c ∷ s)) (b, a) (rw (none_of, y, split_last) at h))
          (prefix-drop p (c ∷ s) y)
    | inr n ↦ cc (rw (none_of, n, split_last) at h)
  ]
]

none_last : (p s x y : Text) → split_last p s ≡ none → s ≡ x ++ p ++ y → ⊥
unfolding split_last
none_last p [] [] y h e =
    let begun : has_prefix [] p ≡ true = ap (λ t. has_prefix t p) e ∙ append-has_prefix p y in
    cc (rw (begun, split_last) at h)
none_last p [] (c ∷ x) y h e = cc
none_last p (c ∷ s) [] y h e =
    let begun : has_prefix (c ∷ s) p ≡ true = ap (λ t. has_prefix t p) e ∙ append-has_prefix p y in
    elim (Option-cases (split_last p s)) [
      | inr (o, found) ↦ cc (rw (found, split_last) at h)
      | inl missing ↦ cc (rw (missing, begun, split_last) at h)
    ]
none_last p (c ∷ s) (d ∷ x) y h e = elim (Option-cases (split_last p s)) [
  | inr (o, found) ↦ cc (rw (found, split_last) at h)
  | inl missing ↦ none_last p s x y missing (ap (drop 1) e)
]

-- No occurrence of the pattern comes later.
pub split_last-last :
    (p s b a x y : Text) → split_last p s ≡ some (b, a) → s ≡ x ++ p ++ y → length x ≤ length b
unfolding split_last
split_last-last p s b a [] y h e = omega arith
split_last-last p [] b a (d ∷ x) y h e = cc
split_last-last p (c ∷ s) b a (d ∷ x) y h e = elim (Option-cases (split_last p s)) [
  | inl missing ↦ absurd (none_last p s x y missing (ap (drop 1) e))
  | inr ((before, after), found) ↦
      let first : c ∷ before ≡ b =
        ap (λ o. o.0) (some-injective (c ∷ before, after) (b, a) (rw (found, split_last) at h)) in
      subst (λ t. suc (length x) ≤ length t) first
        (ground (arith, split_last-last p s before after x y found (ap (drop 1) e)))
]

-- The text is what is in front of the pattern, the pattern, and what is behind it.
pub before_first-append :
    (p s b : Text) → before_first p s ≡ some b → (after : Text) × (s ≡ b ++ p ++ after)
unfolding before_first
before_first-append p [] b h = elim (Bool-cases (has_prefix [] p)) [
  | inl y ↦ (
    [],
    subst (λ o. [] ≡ o ++ p ++ []) (some-injective [] b (rw (y, before_first) at h)) (ends p y),
  )
  | inr n ↦ cc (rw (n, before_first) at h)
]
before_first-append p (c ∷ s) b h = elim (Bool-cases (has_prefix (c ∷ s) p)) [
  | inl y ↦ (
    drop (length p) (c ∷ s),
    subst (λ o. c ∷ s ≡ o ++ p ++ drop (length p) (c ∷ s))
        (some-injective [] b (rw (y, before_first) at h)) (prefix-drop p (c ∷ s) y),
  )
  | inr n ↦ elim (Option-cases (before_first p s)) [
    | inl missing ↦ cc (rw (n, missing, before_first) at h)
    | inr (before, found) ↦
        let (after, same) = before_first-append p s before found in
        (
          after,
          subst (λ o. c ∷ s ≡ o ++ p ++ after)
              (some-injective (c ∷ before) b (rw (n, found, before_first) at h))
              (ap (λ t. c ∷ t) same),
        )
  ]
]

pub or_error-eq-ok :
    {A : Type 0} (o : Option A) (e : FeedError) (a : A) → or_error o e ≡ ok a → o ≡ some a
or_error-eq-ok none e a h = cc
or_error-eq-ok (some b) e a h = ap some (ok_inj h)

-- A line that declares a field, with the field's text.
abbrev pub Line : Text → Text → Text → Type 0
Line field text line =
    (name value : Text) × (cut b':' line ≡ (name, value, true))
    × (trim_bytes name ≡ field)
    × (trim_bytes value ≡ text)

abbrev pub Declared : Text → Text → List Text → Type 0
Declared field text [] = ⊥
Declared field text (line ∷ lines) = Line field text line ⊎ Declared field text lines

abbrev pub signature_field : Text
signature_field = codes "edSignature"

abbrev pub length_field : Text
length_field = codes "length"

-- What a line makes of the two fields.
abbrev Reads : Text → Text × ℤ → Text × ℤ → Type 0
Reads line (s, d) (s', d') =
    ((s' ≡ s) ⊎ Line signature_field s' line)
    × ((d' ≡ d) ⊎ ((text : Text) × Line length_field text line × (parse_int64 text ≡ some d')))

whole : (o : Text × Text × Bool) → not o.2 ≡ false → o ≡ (o.0, o.1, true)
whole (a, b, true) h = refl
whole (a, b, false) h = cc

read_line-Reads :
    (line : Text) (s : Text) (d : ℤ) (s' : Text) (d' : ℤ)
    → read_line line (s, d) ≡ ok (s', d')
    → Reads line (s, d) (s', d')
unfolding read_line
read_line-Reads line s d s' d' h =
    let o = cut b':' line in
    elim (Bool-cases (not o.2)) [
      | inl y ↦
          let e = ok_inj (rw (y, read_line) at h) in
          (inl (sym (ap (λ q. q.0) e)), inl (sym (ap (λ q. q.1) e)))
      | inr n ↦ elim (Bool-cases (str_eq (trim_bytes o.0) signature_field)) [
        | inl y ↦
            let e = ok_inj (rw (n, y, read_line) at h) in
            (
              inr (o.0, o.1, whole o n, (str_eq_iff _ _).0 y, ap (λ q. q.0) e),
              inl (sym (ap (λ q. q.1) e)),
            )
        | inr m ↦ elim (Bool-cases (str_eq (trim_bytes o.0) length_field)) [
          | inr k ↦
              let e = ok_inj (rw (n, m, k, read_line) at h) in
              (inl (sym (ap (λ q. q.0) e)), inl (sym (ap (λ q. q.1) e)))
          | inl y ↦
              let (i, parsed, last) =
                >>=-eq-ok (or_error (parse_int64 (trim_bytes o.1)) invalid_declared_length) _
                  (rw (n, m, y, read_line) at h) in
              let e = ok_inj last in
              (
                inl (sym (ap (λ q. q.0) e)),
                inr (
                  trim_bytes o.1,
                  (o.0, o.1, whole o n, (str_eq_iff _ _).0 y, refl),
                  or_error-eq-ok _ _ i parsed ∙ ap (λ q. some q.1) e,
                ),
              )
        ]
      ]
    ]

-- Where the fields end that start so: as they start, or as a line declares.
pub read_lines-Declared :
    (lines : List Text) (s : Text) (d : ℤ) (s' : Text) (d' : ℤ)
    → read_lines lines (s, d) ≡ ok (s', d')
    → ((s' ≡ s) ⊎ Declared signature_field s' lines)
      × ((d' ≡ d)
          ⊎ ((text : Text) × Declared length_field text lines × (parse_int64 text ≡ some d')))
unfolding read_lines
read_lines-Declared [] s d s' d' h =
    let e = ok_inj h in (inl (sym (ap (λ q. q.0) e)), inl (sym (ap (λ q. q.1) e)))
read_lines-Declared (line ∷ lines) s d s' d' h =
    let ((t, i), first, rest) = >>=-eq-ok (read_line line (s, d)) _ h in
    let here = read_line-Reads line s d t i first in
    let later = read_lines-Declared lines t i s' d' rest in
    (
      elim (later.0) [
        | inr found ↦ inr (inr found)
        | inl same ↦ elim (here.0) [
          | inl kept ↦ inl (same ∙ kept)
          | inr found ↦ inr (inl (subst (λ q. Line signature_field q line) (sym same) found))
        ]
      ],
      elim (later.1) [
        | inr (text, found, parsed) ↦ inr (text, inr found, parsed)
        | inl same ↦ elim (here.1) [
          | inl kept ↦ inl (same ∙ kept)
          | inr (text, found, parsed) ↦ inr (text, inl found, parsed ∙ ap some (sym same))
        ]
      ],
    )

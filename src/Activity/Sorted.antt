-- ===== src/Activity/Sorted.antt =====
-- What the stable sort by time keeps, and its order; the first record of a kind in it is the latest.
use wow_markets.Base.{
  ℕ, ◌≤◌, ◌≡◌, refl, sym, ap, subst, ◌∙◌, Bool, true, false, false≢true, List, [], ◌∷◌, Option,
  none, some, All, ltb, Bool-cases, inl, inr, if◌then◌else◌, arith, ◌⊎◌,
}
use mathlib.Core.Option.{some-injective}
use wow_markets.Scanupload.Record.{Record}
use wow_markets.Scanupload.Outside.{Time}
use wow_markets.Activity.Load.{insert_latest, sort_latest, count_if}

abbrev pub Among : Record → List Record → Type 0
Among c [] = ⊥
Among c (r ∷ rs) = (r ≡ c) ⊎ Among c rs

unfoldable pub count : (Record → Bool) → List Record → ℕ
count p [] = 0
count p (r ∷ rs) = count_if (p r) (count p rs)

-- The first record of a kind.
unfoldable pub first : (Record → Bool) → List Record → Option Record
first p [] = none
first p (r ∷ rs) = if p r then some r else first p rs

module _ (at : Record → Time) where
  -- Nothing is later than what stands in front of it.
  abbrev pub Latest : List Record → Type 0
  Latest [] = Unit
  Latest (r ∷ rs) = All (λ s. at s ≤ at r) rs × Latest rs

  count-insert_latest :
      (p : Record → Bool) (r : Record) (rs : List Record)
      → count p (insert_latest at r rs) ≡ count_if (p r) (count p rs)
  unfolding count insert_latest
  count-insert_latest p r [] = refl
  count-insert_latest p r (s ∷ rs) = elim (Bool-cases (ltb (at r) (at s))) [
    | inr n ↦ rw (n, insert_latest) refl
    | inl y ↦
        rw (y, insert_latest)
          (ap (count_if (p s)) (count-insert_latest p r rs) ∙ swap (p s) (p r) (count p rs))
  ]
    where
      swap : (a b : Bool) (n : ℕ) → count_if a (count_if b n) ≡ count_if b (count_if a n)
      swap a b n = ground arith

  pub count-sort_latest :
      (p : Record → Bool) (rs : List Record) → count p (sort_latest at rs) ≡ count p rs
  unfolding count sort_latest
  count-sort_latest p [] = refl
  count-sort_latest p (r ∷ rs) =
      count-insert_latest p r (sort_latest at rs) ∙ ap (count_if (p r)) (count-sort_latest p rs)

  module _ (P : Record → Type 0) where
    insert_latest-All :
        (r : Record) (rs : List Record) → P r → All P rs → All P (insert_latest at r rs)
    unfolding insert_latest
    insert_latest-All r [] p h = (p, tt)
    insert_latest-All r (s ∷ rs) p h = elim (Bool-cases (ltb (at r) (at s))) [
      | inr n ↦ rw (n, insert_latest) (p, h)
      | inl y ↦ rw (y, insert_latest) (h.0, insert_latest-All r rs p h.1)
    ]

    All-insert_latest :
        (r : Record) (rs : List Record) → All P (insert_latest at r rs) → P r × All P rs
    unfolding insert_latest
    All-insert_latest r [] h = h
    All-insert_latest r (s ∷ rs) h = elim (Bool-cases (ltb (at r) (at s))) [
      | inr n ↦ rw (n, insert_latest) at h
      | inl y ↦
          let (first_of, rest) = rw (y, insert_latest) at h in
          let (p, more) = All-insert_latest r rs rest in (p, (first_of, more))
    ]

    pub All-sort_latest : (rs : List Record) → All P (sort_latest at rs) → All P rs
    unfolding sort_latest
    All-sort_latest [] h = tt
    All-sort_latest (r ∷ rs) h =
        let (p, more) = All-insert_latest r (sort_latest at rs) h in (p, All-sort_latest rs more)

  Among-insert_latest :
      (c r : Record) (rs : List Record) → Among c (insert_latest at r rs) → (r ≡ c) ⊎ Among c rs
  unfolding insert_latest
  Among-insert_latest c r [] h = h
  Among-insert_latest c r (s ∷ rs) h = elim (Bool-cases (ltb (at r) (at s))) [
    | inr n ↦ rw (n, insert_latest) at h
    | inl y ↦ elim (rw (y, insert_latest) at h) [
      | inl same ↦ inr (inl same)
      | inr later ↦ elim (Among-insert_latest c r rs later) [
        | inl it ↦ inl it
        | inr deep ↦ inr (inr deep)
      ]
    ]
  ]

  pub Among-sort_latest : (c : Record) (rs : List Record) → Among c (sort_latest at rs) → Among c rs
  unfolding sort_latest
  Among-sort_latest c [] h = h
  Among-sort_latest c (r ∷ rs) h = elim (Among-insert_latest c r (sort_latest at rs) h) [
    | inl same ↦ inl same
    | inr later ↦ inr (Among-sort_latest c rs later)
  ]

  below :
      (r s : Record) (rs : List Record)
      → at r ≤ at s
      → All (λ q. at q ≤ at r) rs
      → All (λ q. at q ≤ at s) rs
  below r s [] h all = tt
  below r s (q ∷ rs) h (first_of, all) = (omega arith, below r s rs h all)

  insert_latest-Latest :
      (r : Record) (rs : List Record) → Latest rs → Latest (insert_latest at r rs)
  unfolding insert_latest
  insert_latest-Latest r [] h = (tt, tt)
  insert_latest-Latest r (s ∷ rs) h = elim (Bool-cases (ltb (at r) (at s))) [
    | inr n ↦
        let under : at s ≤ at r = ground arith in
        rw (n, insert_latest) ((under, below s r rs under h.0), h)
    | inl y ↦
        let under : at r ≤ at s = ground arith in
        rw (y, insert_latest)
          (insert_latest-All (λ q. at q ≤ at s) r rs under h.0, insert_latest-Latest r rs h.1)
  ]

  pub sort_latest-Latest : (rs : List Record) → Latest (sort_latest at rs)
  unfolding sort_latest
  sort_latest-Latest [] = tt
  sort_latest-Latest (r ∷ rs) = insert_latest-Latest r (sort_latest at rs) (sort_latest-Latest rs)

  of_kind_below :
      (p : Record → Bool) (r : Record) (rs : List Record)
      → All (λ s. at s ≤ at r) rs
      → All (λ s. p s ≡ true → at s ≤ at r) rs
  of_kind_below p r [] h = tt
  of_kind_below p r (s ∷ rs) h = (λ _. h.0, of_kind_below p r rs h.1)

  -- The first of a kind is of it, and the latest.
  pub first-Latest :
      (p : Record → Bool) (c : Record) (rs : List Record)
      → Latest rs
      → first p rs ≡ some c
      → Among c rs × (p c ≡ true) × All (λ r. p r ≡ true → at r ≤ at c) rs
  unfolding first
  first-Latest p c [] h e = cc
  first-Latest p c (r ∷ rs) h e = elim (Bool-cases (p r)) [
    | inl y ↦
        let same = some-injective r c (rw (y, first) at e) in
        (
          inl same,
          subst (λ q. p q ≡ true) same y,
          subst (λ q. All (λ s. p s ≡ true → at s ≤ at q) (r ∷ rs)) same
              (λ _. omega arith, of_kind_below p r rs h.0),
        )
    | inr n ↦
        let (among, of_kind, latest) = first-Latest p c rs h.1 (rw (n, first) at e) in
        (inr among, of_kind, (λ y. absurd (false≢true (sym n ∙ y)), latest))
  ]

  pub first-none :
      (p : Record → Bool) (rs : List Record) → first p rs ≡ none → All (λ r. p r ≡ false) rs
  unfolding first
  first-none p [] e = tt
  first-none p (r ∷ rs) e = ground (arith, first-none p rs)

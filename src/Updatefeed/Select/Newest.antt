-- ===== src/Updatefeed/Select/Newest.antt =====
-- `Select` chooses the newest release for the target that is newer than the current version.
use Prim.Native.Nat.{gt}
use wow_markets.Base.{
  ◌≡◌, ◌≢◌, ◌↔◌, sym, subst, ◌∙◌, true, false, false≢true, ◌&&◌, List, [], ◌∷◌, ◌++◌, append-nil,
  append_assoc, Option, none, some, Option-cases, All, All-append, arith, Bool-cases, inl, inr, ok,
  >>=-eq-ok, ok_inj,
}
use mathlib.Core.Option.{some-injective}
use wow_markets.Base.Strings.{Text}
use wow_markets.Updatefeed.Version.{Version, parse_version, compare_versions}
use wow_markets.Updatefeed.Version.Order.{WellFormed, compare_versions-flip, compare_versions_trans}
use wow_markets.Updatefeed.Select.{
  Target, Release, Selected, matches, is_above, improves, consider, select_from, selected_release,
  select,
}

-- A release for the target, with its version.
pub record Candidate (target : Target) (r : Release) (v : Version) : Type 0 where
  pub for_target : matches target r ≡ true
  pub parsed : parse_version r.version ≡ some v

-- Of the releases `rs`, `s` is the newest that is newer than `current`, if there is one.
abbrev pub Newest : Target → Version → List Release → Selected → Type 0
Newest target current rs none =
    All (λ r. (v : Version) → Candidate target r v → compare_versions v current ≢ gt) rs
Newest target current rs (some (s, w)) =
    Candidate target s w
    × (compare_versions w current ≡ gt)
    × All (λ r. (v : Version) → Candidate target r v → compare_versions v w ≢ gt) rs

-- The versions of the releases are well formed.
abbrev pub AllWellFormed : List Release → Type 0
AllWellFormed rs = All (λ r. (v : Version) → parse_version r.version ≡ some v → WellFormed v) rs

gt_trans :
    (u v w : Version)
    → WellFormed u
    → WellFormed v
    → WellFormed w
    → compare_versions u v ≡ gt
    → compare_versions v w ≡ gt
    → compare_versions u w ≡ gt
gt_trans u v w hu hv hw h k = ground (
  arith,
  compare_versions-flip u v hu hv,
  compare_versions-flip v w hv hw,
  compare_versions-flip w u hw hu,
  compare_versions_trans w v u,
)

gt_asym :
    (u v : Version)
    → WellFormed u
    → WellFormed v
    → compare_versions u v ≡ gt
    → compare_versions v u ≢ gt
gt_asym u v hu hv h k = ground (arith, compare_versions-flip u v hu hv)

-- What the loop is told of a release: no candidate version of it is above `w`.
abbrev NotAbove : Target → Version → Release → Type 0
NotAbove target w r = (v : Version) → Candidate target r v → compare_versions v w ≢ gt

is_above_iff : (v w : Version) → (is_above v w ≡ true) ↔ (compare_versions v w ≡ gt)
is_above_iff v w = (λ h. ground arith, λ h. ground arith)

same_version :
    {target : Target} {r : Release} {v x : Version}
    → Candidate target r v
    → Candidate target r x
    → v ≡ x
same_version {v} {x} c d = some-injective v x (sym c.parsed ∙ d.parsed)

-- A release whose version is not above `w`.
NotAbove-one :
    {target : Target} {r : Release} {v : Version} (w : Version)
    → Candidate target r v
    → compare_versions v w ≢ gt
    → NotAbove target w r
NotAbove-one w c n x d = subst (λ (y : Version). compare_versions y w ≢ gt) (same_version c d) n

-- Below a bound that `v` is above, nothing is above `v`.
NotAbove-raise :
    (target : Target) (w v : Version) (rs : List Release)
    → WellFormed w
    → WellFormed v
    → AllWellFormed rs
    → compare_versions v w ≡ gt
    → All (NotAbove target w) rs
    → All (NotAbove target v) rs
NotAbove-raise target w v [] hw hv hs up n = tt
NotAbove-raise target w v (r ∷ rs) hw hv hs up n = (
  (λ x c k. n.0 x c (gt_trans x v w (hs.0 x c.parsed) hv hw k up)),
  NotAbove-raise target w v rs hw hv hs.1 up n.1,
)

abbrev SelectedWellFormed : Selected → Type 0
SelectedWellFormed none = Unit
SelectedWellFormed (some (_, w)) = WellFormed w

module _ (target : Target) (current : Version) (hc : WellFormed current) where
  consider-Newest :
      (rs : List Release) (r : Release) (v : Version) (selected : Selected)
      → AllWellFormed rs
      → WellFormed v
      → SelectedWellFormed selected
      → Candidate target r v
      → Newest target current rs selected
      → Newest target current (rs ++ r ∷ []) (consider current r v selected)
  unfolding consider
  consider-Newest rs r v none hs hv h c n = elim (Bool-cases (is_above v current)) [
    | inl above ↦
        let up = (is_above_iff v current).0 above in
        rw (above, consider)
          (
            c,
            up,
            All-append (NotAbove target v) rs (r ∷ [])
                (NotAbove-raise target current v rs hc hv hs up n)
                (NotAbove-one v c (λ k. gt_asym v v hv hv k k), tt),
          )
    | inr not_above ↦
        rw (not_above, consider)
          (All-append (NotAbove target current) rs (r ∷ []) n (
            NotAbove-one current c (λ k. false≢true (sym not_above ∙ (is_above_iff v current).1 k)),
            tt,
          ))
  ]
  consider-Newest rs r v (some (s, w)) hs hv h c (cs, ws, n) =
      elim (Bool-cases (is_above v current && is_above v w)) [
        | inl above ↦
            let up = (is_above_iff v w).0 (ground arith) in
            rw (above, consider)
              (
                c,
                (is_above_iff v current).0 (ground arith),
                All-append (NotAbove target v) rs (r ∷ [])
                    (NotAbove-raise target w v rs h hv hs up n)
                    (NotAbove-one v c (λ k. gt_asym v v hv hv k k), tt),
              )
        | inr not_above ↦
            rw (not_above, consider)
              (
                cs,
                ws,
                All-append (NotAbove target w) rs (r ∷ []) n (
                  NotAbove-one w c (λ k. ground (
                    arith,
                    is_above_iff v w,
                    is_above_iff v current,
                    gt_trans v w current hv h hc k ws,
                  )),
                  tt,
                ),
              )
      ]

  skip-Newest :
      (rs : List Release) (r : Release) (selected : Selected)
      → matches target r ≡ false
      → Newest target current rs selected
      → Newest target current (rs ++ r ∷ []) selected
  skip-Newest rs r none m n =
      All-append (NotAbove target current) rs (r ∷ []) n
        ((λ v c. absurd (false≢true (sym m ∙ c.for_target))), tt)
  skip-Newest rs r (some (s, w)) m (cs, ws, n) = (
    cs,
    ws,
    All-append (NotAbove target w) rs (r ∷ []) n
        ((λ v c. absurd (false≢true (sym m ∙ c.for_target))), tt),
  )

  consider-WellFormed :
      (r : Release) (v : Version) (selected : Selected)
      → WellFormed v
      → SelectedWellFormed selected
      → SelectedWellFormed (consider current r v selected)
  unfolding consider
  consider-WellFormed r v selected hv h =
      elim (Bool-cases (is_above v current && improves v selected)) [
        | inl above ↦ rw (above, consider) hv
        | inr not_above ↦ rw (not_above, consider) h
      ]

  select_from-Newest :
      (seen rs : List Release) (selected result : Selected)
      → AllWellFormed seen
      → AllWellFormed rs
      → SelectedWellFormed selected
      → Newest target current seen selected
      → select_from target current selected rs ≡ ok result
      → Newest target current (seen ++ rs) result
  unfolding select_from
  select_from-Newest seen [] selected result hs hr h n e =
      rw append-nil (subst (Newest target current seen) (ok_inj e) n)
  select_from-Newest seen (r ∷ rs) selected result hs hr h n e =
      rw (← append_assoc seen (r ∷ []) rs) (elim (Bool-cases (matches target r)) [
        | inr skipped ↦
            select_from-Newest (seen ++ r ∷ []) rs selected result
              (All-append _ seen (r ∷ []) hs (hr.0, tt)) hr.1 h
              (skip-Newest seen r selected skipped n) (rw (skipped, select_from) at e)
        | inl for_target ↦ elim (Option-cases (parse_version r.version)) [
          | inl bad ↦ absurd (cc (rw (for_target, bad, select_from) at e))
          | inr (v, good) ↦
              select_from-Newest (seen ++ r ∷ []) rs (consider current r v selected) result
                (All-append _ seen (r ∷ []) hs (hr.0, tt)) hr.1
                (consider-WellFormed r v selected (hr.0 v good) h)
                (consider-Newest seen r v selected hs (hr.0 v good) h
                  (record { for_target = for_target; parsed = good }) n)
                (rw (for_target, good, select_from) at e)
        ]
      ])

-- What `Select` says of its choice: none of the releases for the target is newer than the current
-- version, or the choice is for the target, newer than the current version, and no release for the
-- target is newer than it.
abbrev pub Chooses : Target → Version → List Release → Option Release → Type 0
Chooses target current rs none = Newest target current rs none
Chooses target current rs (some r) = (v : Version) × Newest target current rs (some (r, v))

selected-Chooses :
    (target : Target) (current : Version) (rs : List Release) (s : Selected)
    → Newest target current rs s
    → Chooses target current rs (selected_release s)
selected-Chooses target current rs none n = n
selected-Chooses target current rs (some (r, v)) n = (v, n)

-- If the current version and those of the releases are well formed, a release that `Select`
-- returns is the newest for the target and newer than the current version; where it returns none,
-- no release for the target is newer.
pub select-Chooses :
    (rs : List Release) (current : Text) (target : Target) (v : Version) (result : Option Release)
    → parse_version current ≡ some v
    → WellFormed v
    → AllWellFormed rs
    → select rs current target ≡ ok result
    → Chooses target v rs result
unfolding select
select-Chooses rs current target v result p hv hs h =
    let (s, looped, done) = >>=-eq-ok (select_from target v none rs) _ (rw (p, select) at h) in
    subst (Chooses target v rs) (ok_inj done) (
      selected-Chooses target v rs s
        (select_from-Newest target v hv [] rs none s tt hs tt tt looped))

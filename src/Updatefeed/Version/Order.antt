-- ===== src/Updatefeed/Version/Order.antt =====
-- `Compare` is a total order on versions whose numeric identifiers fit a uint64.
use Prim.Native.Nat.{lt, eq}
use wow_markets.Base.{
  ◌≡◌, ◌≢◌, ◌↔◌, refl, sym, subst, ◌∙◌, true, false≢true, List, [], ◌∷◌, All, arith, Bool-cases,
  inl, inr, str_eq, str_eq_iff,
}
use wow_markets.Base.Strings.{Text}
use wow_markets.Updatefeed.Version.{
  Version, order_identifiers, compare_identifiers, compare_prerelease, compare_versions,
}
use wow_markets.Updatefeed.Version.Identifiers.{
  Canonical, flip, order_identifiers-flip, order_identifiers_trans, order_identifiers_irrefl,
  order_identifiers-ne-eq,
}

abbrev pub WellFormed : Version → Type 0
WellFormed v = All Canonical v.prerelease

str_eq_refl : (s : Text) → str_eq s s ≡ true
str_eq_refl s = (str_eq_iff s s).1 refl

str_eq_sym : (s t : Text) → str_eq t s ≡ str_eq s t
str_eq_sym s t = ground (arith, str_eq_iff s t, str_eq_iff t s)

compare_identifiers-flip :
    (vs ws : List Text)
    → All Canonical vs
    → All Canonical ws
    → compare_identifiers ws vs ≡ flip (compare_identifiers vs ws)
unfolding compare_identifiers
compare_identifiers-flip [] [] h k = refl
compare_identifiers-flip [] (w ∷ ws) h k = refl
compare_identifiers-flip (v ∷ vs) [] h k = refl
compare_identifiers-flip (v ∷ vs) (w ∷ ws) h k = elim (Bool-cases (str_eq v w)) [
  | inl same ↦ rw (str_eq_sym v w, same) (compare_identifiers-flip vs ws h.1 k.1)
  | inr differ ↦
      rw (str_eq_sym v w, differ)
        (order_identifiers-flip v w h.0 k.0 (λ e. false≢true (sym differ ∙ (str_eq_iff v w).1 e)))
]

compare_prerelease-flip :
    (vs ws : List Text)
    → All Canonical vs
    → All Canonical ws
    → compare_prerelease ws vs ≡ flip (compare_prerelease vs ws)
unfolding compare_prerelease
compare_prerelease-flip [] [] h k = refl
compare_prerelease-flip [] (w ∷ ws) h k = refl
compare_prerelease-flip (v ∷ vs) [] h k = refl
compare_prerelease-flip (v ∷ vs) (w ∷ ws) h k = compare_identifiers-flip (v ∷ vs) (w ∷ ws) h k

-- Exchanging the two versions exchanges below and above, when every numeric identifier has no
-- leading zero and fits a uint64.
pub compare_versions-flip :
    (v w : Version)
    → WellFormed v
    → WellFormed w
    → compare_versions w v ≡ flip (compare_versions v w)
unfolding compare_versions
compare_versions-flip v w h k =
    ground (arith, compare_prerelease-flip v.prerelease w.prerelease h k)

compare_identifiers-eq : (vs ws : List Text) → (compare_identifiers vs ws ≡ eq) ↔ (vs ≡ ws)
unfolding compare_identifiers
compare_identifiers-eq [] [] = (λ h. refl, λ h. refl)
compare_identifiers-eq [] (w ∷ ws) = (λ h. cc, λ h. cc)
compare_identifiers-eq (v ∷ vs) [] = (λ h. cc, λ h. cc)
compare_identifiers-eq (v ∷ vs) (w ∷ ws) = (
  λ h. ground (arith, str_eq_iff v w, order_identifiers-ne-eq v w, compare_identifiers-eq vs ws),
  λ h. ground (arith, str_eq_iff v w, compare_identifiers-eq vs ws),
)

compare_prerelease-eq : (vs ws : List Text) → (compare_prerelease vs ws ≡ eq) ↔ (vs ≡ ws)
unfolding compare_prerelease
compare_prerelease-eq [] [] = (λ h. refl, λ h. refl)
compare_prerelease-eq [] (w ∷ ws) = (λ h. cc, λ h. cc)
compare_prerelease-eq (v ∷ vs) [] = (λ h. cc, λ h. cc)
compare_prerelease-eq (v ∷ vs) (w ∷ ws) = compare_identifiers-eq (v ∷ vs) (w ∷ ws)

-- Versions compare as equal exactly when they are equal.
pub compare_versions-eq : (v w : Version) → (compare_versions v w ≡ eq) ↔ (v ≡ w)
unfolding compare_versions
compare_versions-eq v w = (
  λ h. ground (arith, compare_prerelease-eq v.prerelease w.prerelease),
  λ h. ground (arith, compare_prerelease-eq v.prerelease w.prerelease),
)

-- One identifier against two in a row, whichever of the three are equal.
head_trans :
    (u v w : Text)
    → u ≢ v
    → v ≢ w
    → order_identifiers u v ≡ lt
    → order_identifiers v w ≡ lt
    → (u ≢ w) × (order_identifiers u w ≡ lt)
head_trans u v w a b h k =
    let through = order_identifiers_trans u v w h k in
    (
      (λ e.
          order_identifiers_irrefl u
            (subst (λ (x : Text). order_identifiers u x ≡ lt) (sym e) through)),
      through,
    )

compare_identifiers_trans :
    (us vs ws : List Text)
    → compare_identifiers us vs ≡ lt
    → compare_identifiers vs ws ≡ lt
    → compare_identifiers us ws ≡ lt
unfolding compare_identifiers
compare_identifiers_trans (u ∷ us) (v ∷ vs) (w ∷ ws) h k = ground (
  arith,
  str_eq_iff u v,
  str_eq_iff v w,
  str_eq_iff u w,
  head_trans u v w,
  compare_identifiers_trans us vs ws,
)
compare_identifiers_trans _ _ _ h k = ground arith

compare_prerelease_trans :
    (us vs ws : List Text)
    → compare_prerelease us vs ≡ lt
    → compare_prerelease vs ws ≡ lt
    → compare_prerelease us ws ≡ lt
unfolding compare_prerelease
compare_prerelease_trans (u ∷ us) (v ∷ vs) (w ∷ ws) h k =
    compare_identifiers_trans (u ∷ us) (v ∷ vs) (w ∷ ws) h k
compare_prerelease_trans _ _ _ h k = ground arith

-- What is below a version below a third is below the third.
pub compare_versions_trans :
    (u v w : Version)
    → compare_versions u v ≡ lt
    → compare_versions v w ≡ lt
    → compare_versions u w ≡ lt
unfolding compare_versions
compare_versions_trans u v w h k = ground (
  arith,
  compare_prerelease_trans u.prerelease v.prerelease w.prerelease,
  compare_prerelease-eq u.prerelease v.prerelease,
  compare_prerelease-eq v.prerelease w.prerelease,
)

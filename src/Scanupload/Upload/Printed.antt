-- ===== src/Scanupload/Upload/Printed.antt =====
-- The digits that `%d` prints are those of the number.
use wow_markets.Base.{
  ℕ, zero, suc, ◌+◌, ◌-◌, ◌*◌, ◌/◌, ◌%◌, ◌<◌, ◌≡◌, refl, ap, ◌∙◌, true, [], ◌∷◌, some, ltb, ltb_iff,
  Bool-cases, inl, inr, arith,
}
use wow_markets.Base.Numbers.{digits_value, is_ascii_digit}
use wow_markets.Base.Strings.{Text}
use wow_markets.Scanupload.Upload.{print_onto, print_nat}

digits_value-digit :
    (v d m : ℕ) (acc : Text)
    → d < 10
    → m ≡ v * 10 + d
    → digits_value v ((b'0' + d) ∷ acc) ≡ digits_value m acc
unfolding digits_value
digits_value-digit v d m acc h e =
    let digit : is_ascii_digit (b'0' + d) ≡ true = ground arith in
    let same : v * 10 + (b'0' + d - b'0') ≡ m = omega arith in
    rw digit (ap (λ k. digits_value k acc) same)

digits_value-print_onto :
    (fuel n : ℕ) (acc : Text)
    → n < fuel
    → digits_value 0 (print_onto fuel n acc) ≡ digits_value n acc
unfolding print_onto
digits_value-print_onto zero n acc h = absurd (omega (arith, h))
digits_value-print_onto (suc fuel) n acc h = elim (Bool-cases (ltb n 10)) [
  | inl y ↦ rw (y, print_onto) (digits_value-digit 0 n n acc ((ltb_iff n 10).0 y) (omega arith))
  | inr y ↦
      let large : ¬ (n < 10) = λ k. ground (arith, ltb_iff n 10) in
      rw (y, print_onto)
        (digits_value-print_onto fuel (n / 10) ((b'0' + n % 10) ∷ acc) (omega arith)
          ∙ digits_value-digit (n / 10) (n % 10) n acc (omega arith) (omega arith))
]

-- The digits that are printed for a number, in their order, are those of the number: the printing
-- has enough rounds.
pub digits_value-print_nat : (n : ℕ) → digits_value 0 (print_nat n) ≡ some n
unfolding print_nat
digits_value-print_nat n =
    digits_value-print_onto (suc n) n [] (omega arith) ∙ unfold digits_value in refl

-- ===== src/Exportfmt/Validate/UnitBuyout.antt =====
-- `UnitBuyout` rounds the price of one item up, as long as its sum is an int64.
use wow_markets.Base.{ℕ, suc, ◌+◌, ◌-◌, ◌*◌, ◌/◌, ◌^◌, ◌≤◌, ◌<◌, ◌≡◌, ap, ◌∙◌, arith}
use wow_markets.Base.Int.{ℤ, pos, negsuc, ◌≤ℤ◌, wrap64, quotient, add_ℤ, sub_ℤ}
use wow_markets.Exportfmt.Scan.{Row}
use wow_markets.Exportfmt.Validate.{unit_buyout}

-- `b + c - 1`, when the sum is at most 2 ^ 63: at 2 ^ 63 it wraps, and wraps back.
sum_wraps_back :
    (b c : ℕ)
    → 0 < c
    → b + c ≤ 2 ^ 63
    → wrap64 (sub_ℤ (wrap64 (add_ℤ (pos b) (pos c))) (pos 1)) ≡ pos (b + c - 1)
unfolding wrap64 add_ℤ sub_ℤ
sum_wraps_back b c h k = ground arith

ceiling : (b c : ℕ) → 0 < c → (b ≤ (b + c - 1) / c * c) × ((b + c - 1) / c * c < b + c)
ceiling b c h = (grind arith, grind arith)

abbrev unit_sum : ℕ → ℕ → ℤ
unit_sum b c = wrap64 (sub_ℤ (wrap64 (add_ℤ (pos b) (pos c))) (pos 1))

unit_buyout_sum :
    (r : Row) (b c : ℕ)
    → r.buyout ≡ pos (suc b)
    → r.stack_count ≡ pos (suc c)
    → unit_buyout r ≡ quotient (unit_sum (suc b) (suc c)) (suc c)
unfolding unit_buyout
unit_buyout_sum r b c hb hc = ground arith

-- For a positive price and stack whose sum is at most 2 ^ 63 the result is the price of one item,
-- rounded up: `q` items' worth covers the buyout, and one less does not.
pub unit_buyout_ceiling :
    (r : Row) (b c : ℕ)
    → r.buyout ≡ pos (suc b)
    → r.stack_count ≡ pos (suc c)
    → suc b + suc c ≤ 2 ^ 63
    → (q : ℕ) × (unit_buyout r ≡ pos q) × (suc b ≤ q * suc c) × (q * suc c < suc b + suc c)
unfolding quotient
unit_buyout_ceiling r b c hb hc small =
    let (up, down) = ceiling (suc b) (suc c) (omega arith) in
    let sum = sum_wraps_back (suc b) (suc c) (omega arith) small in
    let result = unit_buyout_sum r b c hb hc ∙ ap (λ (n : ℤ). quotient n (suc c)) sum in
    ((suc b + suc c - 1) / suc c, result, up, down)

sum_wraps :
    (b c : ℕ)
    → b < 2 ^ 63
    → c < 2 ^ 63
    → 2 ^ 63 < b + c
    → (n : ℕ) × (wrap64 (sub_ℤ (wrap64 (add_ℤ (pos b) (pos c))) (pos 1)) ≡ negsuc n)
unfolding wrap64 add_ℤ sub_ℤ
sum_wraps b c h k l = (2 ^ 64 - (b + c), ground arith)

quotient_negsuc : (n d : ℕ) → quotient (negsuc n) d ≤ℤ pos 0
unfolding quotient
quotient_negsuc n d = ground arith

-- For a positive price and stack, each an int64, whose sum is above 2 ^ 63, the sum wraps and the
-- price of one item is not positive.
pub unit_buyout_wraps :
    (r : Row) (b c : ℕ)
    → r.buyout ≡ pos (suc b)
    → r.stack_count ≡ pos (suc c)
    → suc b < 2 ^ 63
    → suc c < 2 ^ 63
    → 2 ^ 63 < suc b + suc c
    → unit_buyout r ≤ℤ pos 0
unit_buyout_wraps r b c hb hc h k l =
    let (n, e) = sum_wraps (suc b) (suc c) h k l in
    rw (unit_buyout_sum r b c hb hc) (rw e (quotient_negsuc n (suc c)))

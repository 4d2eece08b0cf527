-- ===== src/Scanupload/Backoff.antt =====
-- `backoff` of `upload.go`.
use wow_markets.Base.{
  ℕ, zero, suc, ◌-◌, ◌*◌, ◌/◌, ◌^◌, ◌≤◌, ◌<◌, min, ◌≡◌, refl, ltb, if◌then◌else◌, arith,
}
use native.Mathlib.Nat.{pow-suc, mul_comm, mul_assoc}

-- The loop, with the rounds that `attempt < attempts` still allows, and the test behind it.
unfoldable pub backoff_loop : ℕ → ℕ → ℕ → ℕ
backoff_loop max_backoff zero delay = if ltb max_backoff delay then max_backoff else delay
backoff_loop max_backoff (suc rounds) delay =
    let more = backoff_loop max_backoff rounds (delay * 2) in
    if ltb delay max_backoff
    then (if ltb (max_backoff / 2) delay then max_backoff else more)
    else (if ltb max_backoff delay then max_backoff else delay)

unfoldable pub backoff : ℕ → ℕ → ℕ → ℕ
backoff base_backoff max_backoff attempts = backoff_loop max_backoff (attempts - 1) base_backoff

pow_pos : (k : ℕ) → 0 < 2 ^ k
pow_pos zero = omega arith
pow_pos (suc k) = omega (arith, pow-suc 2 k, pow_pos k)

double : (k d : ℕ) → d * 2 * 2 ^ k ≡ d * 2 ^ suc k
double k d = rw (pow-suc 2 k, mul_assoc d 2 (2 ^ k), mul_comm 2 (2 ^ k)) refl

grows : (k d : ℕ) → d ≤ d * 2 ^ k
grows zero d = omega arith
grows (suc k) d = omega (arith, double k d, grows k (d * 2))

backoff_loop-min :
    (max_backoff rounds delay : ℕ)
    → 0 < delay
    → backoff_loop max_backoff rounds delay ≡ min max_backoff (delay * 2 ^ rounds)
unfolding backoff_loop
backoff_loop-min m zero d h = ground arith
backoff_loop-min m (suc k) d h =
    let again = backoff_loop-min m k (d * 2) (omega (arith, h)) in
    let larger = grows k (d * 2) in
    let start = grows (suc k) d in let same = double k d in ground arith

-- For a positive base, the delay after `attempts` attempts is the base doubled once for each
-- attempt after the first, and the maximum where that is larger.
pub backoff-min :
    (base_backoff max_backoff attempts : ℕ)
    → 0 < base_backoff
    → backoff base_backoff max_backoff attempts
      ≡ min max_backoff (base_backoff * 2 ^ (attempts - 1))
unfolding backoff
backoff-min b m n h = backoff_loop-min m (n - 1) b h

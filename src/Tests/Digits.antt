-- ===== src/Tests/Digits.antt =====
-- Numbers as bytes, for a library of big numbers that are natural numbers.
use bike_modify.Base.{
  ℕ, zero, suc, ◌+◌, ◌-◌, ◌*◌, ◌/◌, ◌%◌, ◌^◌, ◌≤◌, ◌<◌, ◌≡◌, refl, ap, ◌∙◌, arith,
}
use bike_modify.Base.{
  List, length, get_or, replicate, length-replicate, fill, length-fill, fill_inside, get_or_past,
  lt_or_le, inl, inr,
}
use bike_modify.Base.{◌==◌, if◌then◌else◌}
use bike_modify.Bits.{bit, bit_ext, bit_cong, bit-mod-pow, bit-div-pow}
use bike_modify.Word.{IsWords, pow_byte}
use bike_modify.Openssl.Numbers.{be_value, bit-be_value, be_value-lt}

-- The least number of bytes, with a number of rounds.
unfoldable pub bytes_needed : ℕ → ℕ → ℕ
bytes_needed zero x = 0
bytes_needed (suc n) x = let rest = bytes_needed n (x / 256) in if x == 0 then 0 else suc rest

pub bytes_needed_holds : (n x : ℕ) → x ≤ n → x < 2 ^ (8 * bytes_needed n x)
unfolding bytes_needed
bytes_needed_holds zero x h = omega arith
bytes_needed_holds (suc n) x h =
    let ih = bytes_needed_holds n (x / 256) (omega arith) in
    ground (arith, ih, pow_byte (bytes_needed n (x / 256)))

pub bytes_needed_least : (n x k : ℕ) → x < 2 ^ (8 * k) → bytes_needed n x ≤ k
unfolding bytes_needed
bytes_needed_least zero x k h = omega arith
bytes_needed_least (suc n) x zero h = ground arith
bytes_needed_least (suc n) x (suc k) h =
    ground (arith, bytes_needed_least n (x / 256) k (omega (arith, pow_byte k)))

-- The bytes, the greatest first.
unfoldable pub to_bytes : ℕ → ℕ → List ℕ
to_bytes n x = fill n 0 (λ j r. x / 2 ^ (8 * (n - 1 - j)) % 2 ^ 8) (replicate n 0)

pub length-to_bytes : (n x : ℕ) → length (to_bytes n x) ≡ n
unfolding to_bytes
length-to_bytes n x = length-fill {A = ℕ} 0 _ n 0 (replicate n 0) ∙ length-replicate {A = ℕ} n 0

to_bytes_get : (n x j : ℕ) → j < n → get_or (to_bytes n x) j 0 ≡ x / 2 ^ (8 * (n - 1 - j)) % 2 ^ 8
unfolding to_bytes
to_bytes_get n x j h =
    fill_inside 0 (λ j r. x / 2 ^ (8 * (n - 1 - j)) % 2 ^ 8) (λ k xs ys e. refl) n 0 (replicate n 0)
      j (omega arith) (omega arith) (omega (arith, length-replicate {A = ℕ} n 0))

pub to_bytes-IsWords : (n x : ℕ) → IsWords 8 (to_bytes n x)
to_bytes-IsWords n x i = elim (lt_or_le i n) [
  | inl h ↦ rw (to_bytes_get n x i h) (omega arith)
  | inr g ↦ rw (get_or_past (to_bytes n x) i 0 (omega (arith, length-to_bytes n x))) (omega arith)
]

pub be_value-to_bytes : (n x : ℕ) → x < 2 ^ (8 * n) → be_value (to_bytes n x) n ≡ x
be_value-to_bytes n x h =
    bit_ext (8 * n) _ x (be_value-lt (to_bytes n x) n (to_bytes-IsWords n x)) h (λ p k.
      bit-be_value (to_bytes n x) n p (to_bytes-IsWords n x) k
      ∙ ap (λ t. bit t (p % 8))
          (to_bytes_get n x (n - 1 - p / 8) (omega arith)
            ∙ ap (λ t. x / 2 ^ (8 * t) % 2 ^ 8) {x = n - 1 - (n - 1 - p / 8)} {y = p / 8}
                (omega arith))
      ∙ bit-mod-pow 8 (x / 2 ^ (8 * (p / 8))) (p % 8)
      ∙ ground (
        arith,
        bit-div-pow (8 * (p / 8)) x (p % 8),
        bit_cong {x = x} {y = x} {i = 8 * (p / 8) + p % 8} {j = p} refl (omega arith),
      ))

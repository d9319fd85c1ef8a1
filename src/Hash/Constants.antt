-- ===== src/Hash/Constants.antt =====
-- The constants of FIPS 180-4 for SHA-384, from the roots of primes that define them.
use bike_modify.Base.{
  ℕ, zero, suc, ◌+◌, ◌*◌, ◌%◌, ◌^◌, List, [], ◌∷◌, map, take, drop, leb, if◌then◌else◌,
}

-- The largest number below `x + 2 ^ bits` whose power `k` is at most `n`, if that of `x` is.
unfoldable pub root_from : ℕ → ℕ → ℕ → ℕ → ℕ
root_from zero k n x = x
root_from (suc bits) k n x =
    root_from bits k n (if leb ((x + 2 ^ bits) ^ k) n then x + 2 ^ bits else x)

-- The first 64 binary digits of the fractional part of root `k` of `p`, for a root below 2^8.
unfoldable pub fraction : ℕ → ℕ → ℕ
fraction k p = root_from 72 k (p * 2 ^ (64 * k)) 0 % 2 ^ 64

-- The first 80 primes.
abbrev pub primes : List ℕ
primes =
    2 ∷ 3 ∷ 5 ∷ 7 ∷ 11 ∷ 13 ∷ 17 ∷ 19 ∷ 23 ∷ 29 ∷ 31 ∷ 37 ∷ 41 ∷ 43 ∷ 47 ∷ 53 ∷ 59 ∷ 61 ∷ 67 ∷ 71
    ∷ 73 ∷ 79 ∷ 83 ∷ 89 ∷ 97 ∷ 101 ∷ 103 ∷ 107 ∷ 109 ∷ 113 ∷ 127 ∷ 131 ∷ 137 ∷ 139 ∷ 149 ∷ 151 ∷ 157
    ∷ 163 ∷ 167 ∷ 173 ∷ 179 ∷ 181 ∷ 191 ∷ 193 ∷ 197 ∷ 199 ∷ 211 ∷ 223 ∷ 227 ∷ 229 ∷ 233 ∷ 239 ∷ 241
    ∷ 251 ∷ 257 ∷ 263 ∷ 269 ∷ 271 ∷ 277 ∷ 281 ∷ 283 ∷ 293 ∷ 307 ∷ 311 ∷ 313 ∷ 317 ∷ 331 ∷ 337 ∷ 347
    ∷ 349 ∷ 353 ∷ 359 ∷ 367 ∷ 373 ∷ 379 ∷ 383 ∷ 389 ∷ 397 ∷ 401 ∷ 409 ∷ []

-- The square roots of the ninth to the sixteenth prime.
unfoldable pub initial_hash : List ℕ
initial_hash = map (fraction 2) (take 8 (drop 8 primes))

-- The cube roots of the first 80 primes.
unfoldable pub constants : List ℕ
constants = map (fraction 3) primes

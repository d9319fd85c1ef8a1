-- ===== src/Rotate/Cyclic.antt =====
-- `dup` and `rotate_right` together rotate a vector of `R_BITS` digits.
use bike_modify.Base.{ℕ, ◌+◌, ◌*◌, ◌%◌, ◌<◌, ◌≡◌, ◌∙◌, arith, List, length}
use bike_modify.Word.{IsWords, bit_at}
use bike_modify.Params.{Level, r_bits, r_qw, layout}
use bike_modify.Duplicate.{dup}
use bike_modify.Duplicate.Syndrome.{dup_lem}
use bike_modify.Rotate.{rotate_right}
use bike_modify.Rotate.Small.{Shiftable, rotate_right_any}

-- On the array that `dup` makes of a syndrome, `rotate_right` by a count below `R_BITS` is the
-- cyclic rotation of `R_BITS` digits: digit `p` of the result is digit `(p + bitscount) % R_BITS`
-- of the syndrome. The count is no multiple of 64, or the platform gives 0 for `x << 64`.
pub rotate_right-dup :
    (l : Level) (over : ℕ → ℕ → ℕ) (s : List ℕ) (bitscount p : ℕ)
    → length s ≡ 3 * r_qw l
    → IsWords 64 s
    → Shiftable over bitscount
    → bitscount < r_bits l
    → p < r_bits l
    → bit_at (rotate_right l over (dup l s) bitscount) p ≡ bit_at s ((p + bitscount) % r_bits l)
rotate_right-dup l over s n p len w ok n_lt p_lt =
    let d = dup_lem l s len w in
    rotate_right_any l over (dup l s) n p ok (omega (arith, layout l)) d.0 d.1
      (omega (arith, layout l))
    ∙ d.2 (p + n) (omega (arith, layout l))

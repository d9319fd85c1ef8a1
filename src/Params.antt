-- ===== src/Params.antt =====
-- common/bike_defs.h and the arithmetic macros of common/defs.h: the parameters of the scheme at
-- the three security levels that the build can choose.
use bike_modify.Base.{ℕ, ◌+◌, ◌-◌, ◌*◌, ◌/◌, ◌≤◌, ◌<◌, bit_and, bit_or}
use bike_modify.Base.{◌≡◌, arith, ltb, if◌then◌else◌}
use bike_modify.Word.{mask, ◌>>>◌}

-- `LEVEL`, 1, 3 or 5; any other value stops the build.
pub data Level : Type 0 where
  level1 level3 level5 : Level

abbrev pub n0 : ℕ
n0 = 2

unfoldable pub r_bits : Level → ℕ
r_bits level1 = 11779
r_bits level3 = 24821
r_bits level5 = 40597

unfoldable pub dv : Level → ℕ
dv level1 = 71
dv level3 = 103
dv level5 = 137

unfoldable pub t1 : Level → ℕ
t1 level1 = 134
t1 level3 = 199
t1 level5 = 264

-- `MAX_WEIGHT` of prf/sampling_portable.c.
unfoldable pub max_weight : Level → ℕ
unfolding dv t1
max_weight l = if ltb (dv l) (t1 l) then t1 l else dv l

-- The threshold's coefficients, in units of 10^-7: the source writes them as decimal fractions.
unfoldable pub threshold_coeff0 : Level → ℕ
threshold_coeff0 level1 = 135300000
threshold_coeff0 level3 = 159320000
threshold_coeff0 level5 = 174890000

unfoldable pub threshold_coeff1 : Level → ℕ
threshold_coeff1 level1 = 69721
threshold_coeff1 level3 = 52936
threshold_coeff1 level5 = 43536

unfoldable pub block_size : Level → ℕ
block_size level1 = 16384
block_size level3 = 32768
block_size level5 = 32768 * 2

-- `DIVIDE_AND_CEIL`
abbrev pub divide_and_ceil : ℕ → ℕ → ℕ
divide_and_ceil x divider = (x + divider) / divider

unfoldable pub n_bits : Level → ℕ
unfolding r_bits
n_bits l = r_bits l * n0

unfoldable pub r_size : Level → ℕ
unfolding r_bits
r_size l = divide_and_ceil (r_bits l) 8

unfoldable pub r_qw : Level → ℕ
unfolding r_bits
r_qw l = divide_and_ceil (r_bits l) (8 * 8)

unfoldable pub n_size : Level → ℕ
unfolding n_bits
n_size l = divide_and_ceil (n_bits l) 8

unfoldable pub r_padded : Level → ℕ
unfolding r_bits block_size
r_padded l = divide_and_ceil (r_bits l) (block_size l) * block_size l

unfoldable pub r_padded_size : Level → ℕ
unfolding r_padded
r_padded_size l = r_padded l / 8

unfoldable pub r_padded_qw : Level → ℕ
unfolding r_padded
r_padded_qw l = r_padded l / 64

unfoldable pub n_padded_size : Level → ℕ
unfolding n_bits block_size
n_padded_size l = divide_and_ceil (n_bits l) (block_size l) * block_size l / 8

unfoldable pub last_r_qw_lead : Level → ℕ
unfolding r_bits
last_r_qw_lead l = bit_and (r_bits l) (mask 6)

unfoldable pub last_r_qw_trail : Level → ℕ
unfolding last_r_qw_lead
last_r_qw_trail l = 64 - last_r_qw_lead l

unfoldable pub last_r_qw_mask : Level → ℕ
unfolding last_r_qw_lead
last_r_qw_mask l = mask (last_r_qw_lead l)

unfoldable pub last_r_byte_lead : Level → ℕ
unfolding r_bits
last_r_byte_lead l = bit_and (r_bits l) (mask 3)

unfoldable pub last_r_byte_trail : Level → ℕ
unfolding last_r_byte_lead
last_r_byte_trail l = 8 - last_r_byte_lead l

unfoldable pub last_r_byte_mask : Level → ℕ
unfolding last_r_byte_lead
last_r_byte_mask l = mask (last_r_byte_lead l)

-- `UPTOPOW2`: the digits below the highest one are set step by step.
smear : ℕ → ℕ → ℕ
smear v k = bit_or v (v >>> k)

unfoldable pub uptopow2 : ℕ → ℕ
unfolding smear
uptopow2 v = smear (smear (smear (smear (smear (v - 1) 1) 2) 4) 8) 16 + 1

-- `LOG2_MSB`, for arguments below 512.
unfoldable pub log2_msb : ℕ → ℕ
log2_msb v =
    if ltb v 2
    then 1
    else if ltb v 4
    then 2
    else if ltb v 8
    then 3
    else if ltb v 16
    then 4
    else if ltb v 32
    then 5
    else if ltb v 64
    then 6
    else if ltb v 128
    then 7
    else if ltb v 256
    then 8
    else 9

abbrev pub delta : ℕ
delta = 3

unfoldable pub slices : Level → ℕ
unfolding log2_msb dv
slices l = log2_msb (dv l) + 1

-- `MAX_IT` of decode/decode.c, under `BGF_DECODER`, which common/bike_defs.h defines.
unfoldable pub max_it : Level → ℕ
max_it level1 = 5
max_it level3 = 6
max_it level5 = 7

-- How the last word and the last byte of a vector of `R_BITS` bits divide.
pub record IsLayout (l : Level) : Type 0 where
  pub words : r_bits l + 64 ≡ 64 * r_qw l + last_r_qw_lead l
  pub trail : last_r_qw_trail l + last_r_qw_lead l ≡ 64
  pub lead_pos : 0 < last_r_qw_lead l
  pub lead_lt : last_r_qw_lead l < 64
  pub bytes : r_bits l + 8 ≡ 8 * r_size l + last_r_byte_lead l
  pub byte_trail : last_r_byte_trail l + last_r_byte_lead l ≡ 8
  pub byte_lead_pos : 0 < last_r_byte_lead l
  pub byte_lead_lt : last_r_byte_lead l < 8
  pub two_words : 2 ≤ r_qw l

pub layout : (l : Level) → IsLayout l
unfolding r_qw r_size last_r_qw_trail last_r_byte_trail
layout level1 = omega arith
layout level3 = omega arith
layout level5 = omega arith

pub r_size-lt : (l : Level) → r_size l < 65536
unfolding r_size
r_size-lt level1 = omega arith
r_size-lt level3 = omega arith
r_size-lt level5 = omega arith

pub padded_room : (l : Level) → r_qw l ≤ r_padded_qw l
unfolding r_qw r_padded_qw
padded_room level1 = omega arith
padded_room level3 = omega arith
padded_room level5 = omega arith

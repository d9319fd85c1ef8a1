-- ===== src/Tests/Decoder.antt =====
-- Inputs for the decoder's parts, at level 1.
use bike_modify.Base.{
  ℕ, zero, suc, ◌+◌, ◌-◌, ◌*◌, ◌/◌, ◌%◌, ◌^◌, ◌≤◌, ◌<◌, ◌≡◌, refl, sym, ◌∙◌, arith, List, [], ◌∷◌,
  get_or,
}
use bike_modify.Base.{length, if◌then◌else◌, ltb, leb, replicate, length-replicate, to_nat}
use bike_modify.Base.{xor, not, ◌&&◌, bit_or, inl}
use bike_modify.Word.{IsWords, bit_at}
use bike_modify.Bytes.{byte_bit}
use bike_modify.Params.{level1, r_bits, r_qw, r_size, dv, slices, delta}
use bike_modify.Duplicate.{dup}
use bike_modify.Duplicate.Syndrome.{dup_lem}
use bike_modify.Rotate.{rotate_right}
use bike_modify.Rotate.Small.{rotate_right_aligned}
use bike_modify.Rotate.Cyclic.{rotate_right-dup}
use bike_modify.Upc.{bit_sliced_adder, bit_slice_full_subtract}
use bike_modify.Upc.Columns.{count, AreSlices}
use bike_modify.Upc.Add.{bit_sliced_adder_lem}
use bike_modify.Upc.Subtract.{bit_slice_full_subtract_lem}
use bike_modify.FindErr.{find_err1_at, find_err2_at, count_checks}
use bike_modify.FindErr.Checks.{checks, AreIndices}
use bike_modify.FindErr.Counters.{count_checks_lem}
use bike_modify.FindErr.Flip.{find_err1_at_lem, find_err2_at_lem}

-- What x86 gives for a shift by 64: the count is taken modulo 64.
abbrev pub x86_shift : ℕ → ℕ → ℕ
x86_shift x k = x

pub get_or-replicate-le : (n a i : ℕ) → get_or (replicate n a) i 0 ≤ a
get_or-replicate-le zero a i = omega arith
get_or-replicate-le (suc n) a zero = omega arith
get_or-replicate-le (suc n) a (suc i) = get_or-replicate-le n a i

abbrev syndrome : List ℕ
syndrome = replicate 555 5

syndrome-size : length syndrome ≡ 3 * r_qw level1
unfolding r_qw
syndrome-size = length-replicate {A = ℕ} 555 5

syndrome-IsWords : IsWords 64 syndrome
syndrome-IsWords i = omega (arith, get_or-replicate-le 555 5 i)

abbrev indices : List ℕ
indices = 1 ∷ 130 ∷ 11778 ∷ []

indices-AreIndices : AreIndices level1 x86_shift indices
unfolding r_bits
indices-AreIndices = (
  omega arith,
  inl (omega arith),
  (omega arith, inl (omega arith), (omega arith, inl (omega arith), tt)),
)

sizes : (r_bits level1 ≡ 11779) × (r_qw level1 ≡ 185) × (dv level1 ≡ 71) × (r_size level1 ≡ 1473)
unfolding r_bits r_qw dv r_size
sizes = (refl, refl, refl, refl)

dup_lem_example :
    (length (dup level1 syndrome) ≡ 3 * r_qw level1)
    × IsWords 64 (dup level1 syndrome)
    × ((p : ℕ)
        → p < 64 * (3 * r_qw level1 - 1)
        → bit_at (dup level1 syndrome) p ≡ bit_at syndrome (p % r_bits level1))
dup_lem_example = dup_lem level1 syndrome syndrome-size syndrome-IsWords

-- At a count of 128 digits x86 gives the disjunction of two words of the syndrome.
rotate_right_aligned_example :
    get_or (rotate_right level1 x86_shift syndrome 128) 3 0
    ≡ bit_or
        (get_or syndrome (3 + 128 / 64) 0)
        (x86_shift (get_or syndrome (3 + 1 + 128 / 64) 0) 64)
rotate_right_aligned_example =
    rotate_right_aligned level1 x86_shift syndrome 128 3 (omega arith) (omega (arith, sizes))
      syndrome-size syndrome-IsWords (omega (arith, sizes))

rotate_right-dup_example :
    bit_at (rotate_right level1 x86_shift (dup level1 syndrome) 130) 11700
    ≡ bit_at syndrome ((11700 + 130) % r_bits level1)
rotate_right-dup_example =
    rotate_right-dup level1 x86_shift syndrome 130 11700 syndrome-size syndrome-IsWords
      (inl (omega arith)) (omega (arith, sizes)) (omega (arith, sizes))

-- Three slices: the counter of digit 0 is 5, that of digit 1 is 2.
abbrev upc : List (List ℕ)
upc = (1 ∷ replicate 184 0) ∷ (2 ∷ replicate 184 0) ∷ (1 ∷ replicate 184 0) ∷ []

first_word-IsWords : (x : ℕ) → x < 2 ^ 64 → IsWords 64 (x ∷ replicate 184 0)
first_word-IsWords x h zero = h
first_word-IsWords x h (suc i) = omega (arith, get_or-replicate-le 184 0 i)

first_word-room : (x : ℕ) → r_qw level1 ≤ length (x ∷ replicate 184 0)
first_word-room x = omega (arith, sizes, length-replicate {A = ℕ} 184 0)

upc-AreSlices : AreSlices level1 upc
upc-AreSlices = (
  first_word-room 1,
  first_word-IsWords 1 (omega arith),
  (
    first_word-room 2,
    first_word-IsWords 2 (omega arith),
    (first_word-room 1, first_word-IsWords 1 (omega arith), tt),
  ),
)

bit_sliced_adder_lem_example :
    count (bit_sliced_adder level1 upc syndrome 3).0 0
      + 2 ^ 3 * to_nat (bit_at (bit_sliced_adder level1 upc syndrome 3).1 0)
    ≡ count upc 0 + to_nat (bit_at syndrome 0)
bit_sliced_adder_lem_example =
    bit_sliced_adder_lem level1 3 upc syndrome 0 (omega arith) upc-AreSlices
      (omega (arith, syndrome-size, sizes)) (omega (arith, sizes))

bit_slice_full_subtract_lem_example :
    count (bit_slice_full_subtract level1 upc 3) 1
    ≡ (if ltb (count upc 1) 3 then count upc 1 + 2 ^ length upc - 3 else count upc 1 - 3)
bit_slice_full_subtract_lem_example =
    bit_slice_full_subtract_lem level1 upc 3 1 (omega (arith, sizes)) upc-AreSlices (omega arith)

count_checks_lem_example :
    count (count_checks level1 x86_shift (dup level1 syndrome) indices 2).0 9 ≡ (
      if ltb (checks level1 syndrome indices 9) 2
      then checks level1 syndrome indices 9 + 2 ^ slices level1 - 2
      else checks level1 syndrome indices 9 - 2)
unfolding slices
count_checks_lem_example =
    count_checks_lem level1 x86_shift syndrome syndrome-size syndrome-IsWords indices 2
      indices-AreIndices 9 (omega (arith, sizes)) (omega arith) (omega (arith, sizes))

abbrev pub bytes : List ℕ
bytes = replicate 1473 0

bytes-size : length bytes ≡ r_size level1
bytes-size = length-replicate {A = ℕ} 1473 0 ∙ sym (omega (arith, sizes))

find_err1_at_lem_example :
    let found = find_err1_at level1 x86_shift (dup level1 syndrome) bytes bytes bytes indices 2 in
    let flip = leb 2 (checks level1 syndrome indices 9) in
    (byte_bit found.e 9 ≡ xor (byte_bit bytes 9) flip)
    × (byte_bit found.black 9 ≡ flip)
    × (byte_bit found.gray 9 ≡ (not flip && leb 2 (checks level1 syndrome indices 9 + delta)))
find_err1_at_lem_example =
    find_err1_at_lem level1 x86_shift syndrome indices 2 syndrome-size syndrome-IsWords
      indices-AreIndices (omega (arith, sizes)) (omega arith) bytes bytes-size bytes bytes
      bytes-size bytes-size 9 (omega (arith, sizes))

find_err2_at_lem_example :
    byte_bit (find_err2_at level1 x86_shift (dup level1 syndrome) bytes bytes indices 2) 9
    ≡ xor (byte_bit bytes 9) (byte_bit bytes 9 && leb 2 (checks level1 syndrome indices 9))
find_err2_at_lem_example =
    find_err2_at_lem level1 x86_shift syndrome indices 2 syndrome-size syndrome-IsWords
      indices-AreIndices (omega (arith, sizes)) (omega arith) bytes bytes-size bytes 9
      (omega (arith, sizes))

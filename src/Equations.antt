-- ===== src/Equations.antt =====
-- decode/decode.c: `negate_and`, `and_index` and the part of the first iteration of `decode` that builds
-- equations for the positions that are black or gray. Nothing in the source reads what it builds.
pub mod Location
pub mod Rows
use bike_modify.Base.{
  ℕ, zero, suc, ◌+◌, ◌-◌, ◌*◌, ◌%◌, ◌^◌, bit_and, Bool, true, false, ◌==◌, if◌then◌else◌,
}
use bike_modify.Base.{List, ◌++◌, get_or, set, drop, replicate, fill, for_range}
use bike_modify.Word.{shl, complement}
use bike_modify.Bytes.{byte_of, memcpy}
use bike_modify.Params.{Level, r_bits, r_qw, r_size, dv}
use bike_modify.Rotate.{rotate_right}
use bike_modify.Duplicate.{dup, dup_two, rotate_right_one}
use bike_modify.Gf2x.{gf2x_add}
use bike_modify.Decode.{bytes_of}

-- `res[i] = ~a[i] & b[i]`
unfoldable pub negate_and : List ℕ → List ℕ → List ℕ → ℕ → List ℕ
negate_and res a b bytelen =
    fill bytelen 0 (λ i r. bit_and (complement 8 (get_or a i 0)) (get_or b i 0)) res

-- The array of the rows, of which a call of `and_index` fills the one that starts at `base`, and the
-- 8-bit `count` of the call.
pub record Row : Type 0 where
  pub res : List ℕ
  pub count : ℕ

-- The test of one digit of `tmp[i]` and what is stored for it.
unfoldable pub note_digit : ℕ → ℕ → ℕ → ℕ → Row → Row
note_digit base i tmp index row = if bit_and (shl 8 1 index) tmp == 0 then row else record {
  res = set row.res (base + row.count) ((i * 8 + index) % 2 ^ 16);
  count = (row.count + 1) % 2 ^ 8;
}

-- The body of the loop over the bytes: `location` takes the 8 powers of two of a byte.
unfoldable pub note_byte : ℕ → List ℕ → List ℕ → ℕ → Row → Row
note_byte base a b i row =
    let tmp = bit_and (get_or a i 0) (get_or b i 0) in
    let all = for_range 8 0 (note_digit base i tmp) row in if tmp == 0 then row else all

-- `a[bytelen]` and `b[bytelen]`, which the last part reads, stand behind the bytes that are meant:
-- `a_past` and `b_past` are what stands there. `tmp[bytelen]`, behind the end of the local array, is
-- taken to keep what is written to it.
unfoldable pub and_index : ℕ → List ℕ → List ℕ → List ℕ → ℕ → ℕ → ℕ → Row
and_index base res a b bytelen a_past b_past =
    for_range 3 0 (note_digit base bytelen (bit_and (bit_and a_past b_past) 7))
      (for_range (bytelen - 1) 0 (note_byte base a b) (record { res = res; count = 0 }))

-- The local arrays of `decode` for one of the two polynomials. `equations` has the rows of 10 columns
-- one behind the other.
pub record Build : Type 0 where
  pub black_or_gray : List ℕ
  pub ct_remove : List ℕ
  pub c : List ℕ
  pub constant_term : List ℕ
  pub equations : List ℕ
  pub h : List ℕ

module _ (l : Level) (over : ℕ → ℕ → ℕ) where
  -- The copy of the secret polynomial, from word 185 on, and `dup_two`.
  unfoldable pub start_h : List ℕ → List ℕ
  start_h bin =
      dup_two l (replicate 185 0 ++ memcpy (replicate (2 * r_qw l - 185) 0) bin (r_size l))

  -- The arrays that are declared with zeros.
  unfoldable pub start_build : List ℕ → Build
  start_build bin = record {
    black_or_gray = replicate (r_size l) 0;
    ct_remove = replicate (r_size l) 0;
    c = replicate (3 * r_qw l) 0;
    constant_term = replicate (3 * r_qw l) 0;
    equations = replicate (10 * r_bits l) 0;
    h = start_h bin;
  }

  -- The loop over `j`: `gf2x_add` on the first bytes of the two arrays of words.
  unfoldable pub add_rotated : List ℕ → List ℕ → List ℕ → List ℕ
  add_rotated c wlist constant_term =
      for_range (dv l) 0
        (λ j k.
          let old = bytes_of k (r_size l) in
          let rotated = bytes_of (rotate_right l over c (get_or wlist j 0)) (r_size l) in
          memcpy k (gf2x_add old old rotated (r_size l)) (r_size l))
        constant_term

  -- The loop over `i_eq`: one row for each rotation of `h`, whose bytes start at word `R_QW`.
  unfoldable pub add_rows : List ℕ → ℕ → List ℕ × List ℕ → List ℕ × List ℕ
  add_rows black_or_gray past rows =
      for_range (r_bits l) 0
        (λ i_eq r.
          let bytes = drop (r_qw l) r.1 in
          let row =
            and_index (10 * i_eq) r.0 black_or_gray (bytes_of bytes (r_size l)) (r_size l) past
              (byte_of bytes (r_size l)) in
          (row.res, rotate_right_one l r.1))
        rows

  -- The body of the loop over `i`, where `past` is the byte behind `black_or_gray`.
  unfoldable pub build_equations : List ℕ → List ℕ → List ℕ → List ℕ → ℕ → Build → Build
  build_equations black gray ct wlist past s =
      let black_or_gray = gf2x_add s.black_or_gray black gray (r_size l) in
      let ct_remove = negate_and s.ct_remove black_or_gray ct (r_size l) in
      let c = dup l (memcpy s.c ct_remove (r_size l)) in
      let rows = add_rows black_or_gray past (s.equations, s.h) in
      record {
        black_or_gray = black_or_gray;
        ct_remove = ct_remove;
        c = c;
        constant_term = add_rotated c wlist s.constant_term;
        equations = rows.0;
        h = rows.1;
      }

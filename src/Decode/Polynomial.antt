-- ===== src/Decode/Polynomial.antt =====
-- Polynomials as arrays of bytes (`r_t`): `mod_mul` and `gf2x_add` on them.
use bike_modify.Base.{ℕ, ◌+◌, ◌-◌, ◌*◌, ◌/◌, ◌%◌, ◌≤◌, ◌<◌, ◌≡◌, refl, ap, ap₂, sym, ◌∙◌, arith}
use bike_modify.Base.{
  List, length, get_or, get_or_past, get_or_ext, length-set, replicate, length-replicate,
  get_or-replicate, fill_inside, length-fill,
}
use bike_modify.Base.{false, xor, lt_or_le, inl, inr, bit_xor}
use bike_modify.Bits.{bit, bit_ext, bit_cong, bit-zero}
use bike_modify.Word.{IsWords, bit_at, bit_xor-lt, bit_and-lt, set-IsWords}
use bike_modify.Bytes.{byte_bit, byte_of, byte_of-lt, bit-byte_of, memcpy_lem}
use bike_modify.Params.{Level, r_bits, r_size, r_padded_qw, padded_room, last_r_byte_mask, layout}
use bike_modify.Poly.{cyclic_product}
use bike_modify.Poly.Cyclic.{cyclic_cong}
use bike_modify.Gf2x.{gf2x_add, gf2x_mod_mul}
use bike_modify.Gf2x.Add.{gf2x_add_lem, length-gf2x_add}
use bike_modify.Gf2x.Cyclic.{IsPadded, gf2x_mod_mul_lem, gf2x_mod_mul_past}
use bike_modify.FindErr.{mask_last_byte}
use bike_modify.FindErr.Flip.{mask_last_byte_clears}
use bike_modify.Decode.{bytes_of, pad, mod_mul}

-- `r_t`: `R_SIZE` bytes with no digit from `R_BITS` on.
pub record IsPoly (l : Level) (x : List ℕ) : Type 0 where
  pub size : length x ≡ r_size l
  pub bytes : IsWords 8 x
  pub past : (p : ℕ) → r_bits l ≤ p → byte_bit x p ≡ false

pub byte_bit_past : (x : List ℕ) (p : ℕ) → 8 * length x ≤ p → byte_bit x p ≡ false
unfolding byte_bit
byte_bit_past x p h =
    ap (λ t. bit t (p % 8)) (get_or_past x (p / 8) 0 (omega arith)) ∙ bit-zero (p % 8)

-- Two polynomials with the same digits are the same bytes.
pub poly_ext :
    (l : Level) (x y : List ℕ)
    → IsPoly l x
    → IsPoly l y
    → ((p : ℕ) → p < r_bits l → byte_bit x p ≡ byte_bit y p)
    → x ≡ y
poly_ext l x y sx sy h = get_or_ext 0 x y (sx.size ∙ sym sy.size) (λ i.
    bit_ext 8 _ _ (sx.bytes i) (sy.bytes i)
      (λ b k. digit x i b k ∙ all (8 * i + b) ∙ sym (digit y i b k)))
  where
    digit : (z : List ℕ) (i b : ℕ) → b < 8 → bit (get_or z i 0) b ≡ byte_bit z (8 * i + b)
    digit z i b k =
        unfold byte_bit in
        bit_cong {i = b} {j = (8 * i + b) % 8}
          (ap (λ t. get_or z t 0) {x = i} {y = (8 * i + b) / 8} (omega arith)) (omega arith)

    all : (p : ℕ) → byte_bit x p ≡ byte_bit y p
    all p = elim (lt_or_le p (r_bits l)) [ inl k ↦ h p k | inr g ↦ sx.past p g ∙ sym (sy.past p g) ]

-- The first bytes of a word array.
pub length-bytes_of : (qw : List ℕ) (n : ℕ) → length (bytes_of qw n) ≡ n
unfolding bytes_of
length-bytes_of qw n = length-fill 0 _ n 0 (replicate n 0) ∙ length-replicate {A = ℕ} n 0

bytes_of-get : (qw : List ℕ) (n i : ℕ) → i < n → get_or (bytes_of qw n) i 0 ≡ byte_of qw i
unfolding bytes_of
bytes_of-get qw n i h =
    fill_inside 0 (λ j r. byte_of qw j) (λ k xs ys e. refl) n 0 (replicate n 0) i (omega arith)
      (omega arith) (rw (length-replicate {A = ℕ} n 0) h)

pub bytes_of-IsWords : (qw : List ℕ) (n : ℕ) → IsWords 8 (bytes_of qw n)
bytes_of-IsWords qw n i = elim (lt_or_le i n) [
  | inl h ↦ rw (bytes_of-get qw n i h) (byte_of-lt qw i)
  | inr g ↦ rw (get_or_past (bytes_of qw n) i 0 (omega (arith, length-bytes_of qw n))) (omega arith)
]

pub byte_bit-bytes_of :
    (qw : List ℕ) (n p : ℕ) → p < 8 * n → byte_bit (bytes_of qw n) p ≡ bit_at qw p
unfolding byte_bit
byte_bit-bytes_of qw n p h =
    ap (λ t. bit t (p % 8)) (bytes_of-get qw n (p / 8) (omega arith))
    ∙ bit-byte_of qw (p / 8) (p % 8) (omega arith)
    ∙ ap (bit_at qw) {x = 8 * (p / 8) + p % 8} {y = p} (omega arith)

-- Word arrays with the same digits have the same bytes.
pub bytes_of_cong :
    (qw qw' : List ℕ) (n : ℕ)
    → ((p : ℕ) → p < 8 * n → bit_at qw p ≡ bit_at qw' p)
    → bytes_of qw n ≡ bytes_of qw' n
bytes_of_cong qw qw' n h =
    get_or_ext 0 _ _ (length-bytes_of qw n ∙ sym (length-bytes_of qw' n)) (λ i.
      elim (lt_or_le i n) [
        | inl k ↦
            bytes_of-get qw n i k
            ∙ bit_ext 8 _ _ (byte_of-lt qw i) (byte_of-lt qw' i) (λ b m.
              bit-byte_of qw i b m ∙ h (8 * i + b) (omega arith) ∙ sym (bit-byte_of qw' i b m))
            ∙ sym (bytes_of-get qw' n i k)
        | inr g ↦
            get_or_past (bytes_of qw n) i 0 (omega (arith, length-bytes_of qw n))
            ∙ sym (get_or_past (bytes_of qw' n) i 0 (omega (arith, length-bytes_of qw' n)))
      ])

-- A polynomial in an array of words with no digit from `R_BITS` to the end of its `R_SIZE` bytes.
pub bytes_of-IsPoly :
    (l : Level) (qw : List ℕ)
    → ((p : ℕ) → r_bits l ≤ p → p < 8 * r_size l → bit_at qw p ≡ false)
    → IsPoly l (bytes_of qw (r_size l))
bytes_of-IsPoly l qw h = record {
  size = length-bytes_of qw (r_size l);
  bytes = bytes_of-IsWords qw (r_size l);
  past = λ p k. elim (lt_or_le p (8 * r_size l)) [
    | inl m ↦ byte_bit-bytes_of qw (r_size l) p m ∙ h p k m
    | inr g ↦ byte_bit_past _ p (omega (arith, length-bytes_of qw (r_size l)))
  ];
}

-- The mask of the last byte makes a polynomial of `R_SIZE` bytes.
pub masked-IsPoly :
    (l : Level) (raw : List ℕ)
    → length raw ≡ r_size l
    → IsWords 8 raw
    → IsPoly l (mask_last_byte l raw)
masked-IsPoly l raw len words =
    let size : length (mask_last_byte l raw) ≡ r_size l =
      unfold mask_last_byte in length-set raw (r_size l - 1) _ ∙ len in
    record {
      size = size;
      bytes =
          unfold mask_last_byte in
          set-IsWords 8 raw (r_size l - 1) _ words (
            bit_and-lt 8 (get_or raw (r_size l - 1) 0) (last_r_byte_mask l) (words (r_size l - 1)));
      past = λ p h. elim (lt_or_le p (8 * r_size l)) [
        | inl k ↦ mask_last_byte_clears l raw p len h k
        | inr g ↦ byte_bit_past _ p (omega (arith, size))
      ];
    }

-- `pad` keeps the digits.
pub bit_at-pad : (l : Level) (x : List ℕ) (p : ℕ) → IsPoly l x → bit_at (pad l x) p ≡ byte_bit x p
unfolding pad
bit_at-pad l x p s =
    let zeros : List ℕ = replicate (r_padded_qw l) 0 in
    let copied =
      memcpy_lem zeros x (r_size l)
        (λ i. rw (get_or-replicate {A = ℕ} (r_padded_qw l) 0 i) (omega arith)) s.bytes
        (rw (length-replicate {A = ℕ} (r_padded_qw l) 0)
          (omega (arith, layout l, padded_room l))) in
    copied.2 p ∙ ground (arith, s.past p, layout l, no_digit p)
  where
    no_digit : (p : ℕ) → bit_at (replicate (r_padded_qw l) 0) p ≡ false
    no_digit p =
        unfold bit_at in
        (ap (λ t. bit t (p % 64)) (get_or-replicate {A = ℕ} (r_padded_qw l) 0 (p / 64))
          ∙ bit-zero (p % 64))

pub pad-IsPadded : (l : Level) (x : List ℕ) → IsPoly l x → IsPadded l (pad l x)
pad-IsPadded l x s =
    let zeros : List ℕ = replicate (r_padded_qw l) 0 in
    let copied =
      memcpy_lem zeros x (r_size l)
        (λ i. rw (get_or-replicate {A = ℕ} (r_padded_qw l) 0 i) (omega arith)) s.bytes
        (rw (length-replicate {A = ℕ} (r_padded_qw l) 0)
          (omega (arith, layout l, padded_room l))) in
    record {
      size = unfold pad in (copied.0 ∙ length-replicate {A = ℕ} (r_padded_qw l) 0);
      words = unfold pad in copied.1;
      past = λ p k. bit_at-pad l x p s ∙ s.past p k;
    }

-- The first `R_SIZE` bytes of a product of padded polynomials.
pub product-IsPoly :
    (l : Level) (a b : List ℕ)
    → IsPadded l a
    → IsPadded l b
    → IsPoly l (bytes_of (gf2x_mod_mul l a b) (r_size l))
product-IsPoly l a b sa sb =
    bytes_of-IsPoly l (gf2x_mod_mul l a b)
      (λ p k m. gf2x_mod_mul_past l a b p sa sb k (omega (arith, layout l)))

pub product_digits :
    (l : Level) (a b : List ℕ) (p : ℕ)
    → IsPadded l a
    → IsPadded l b
    → p < r_bits l
    → byte_bit (bytes_of (gf2x_mod_mul l a b) (r_size l)) p
      ≡ cyclic_product (r_bits l) (bit_at a) (bit_at b) p
product_digits l a b p sa sb h =
    byte_bit-bytes_of (gf2x_mod_mul l a b) (r_size l) p (omega (arith, layout l))
    ∙ gf2x_mod_mul_lem l a b p sa sb h

pub mod_mul-IsPoly : (l : Level) (x y : List ℕ) → IsPoly l x → IsPoly l y → IsPoly l (mod_mul l x y)
unfolding mod_mul
mod_mul-IsPoly l x y sx sy =
    product-IsPoly l (pad l x) (pad l y) (pad-IsPadded l x sx) (pad-IsPadded l y sy)

pub mod_mul_lem :
    (l : Level) (x y : List ℕ) (p : ℕ)
    → IsPoly l x
    → IsPoly l y
    → p < r_bits l
    → byte_bit (mod_mul l x y) p ≡ cyclic_product (r_bits l) (byte_bit x) (byte_bit y) p
unfolding mod_mul
mod_mul_lem l x y p sx sy h =
    product_digits l (pad l x) (pad l y) p (pad-IsPadded l x sx) (pad-IsPadded l y sy) h
    ∙ cyclic_cong (r_bits l) _ _ _ _ p (omega arith) (λ i k. bit_at-pad l x i sx)
        (λ i k. bit_at-pad l y i sy)

-- The sum of two polynomials, in an array of `R_SIZE` bytes.
pub gf2x_add-IsPoly :
    (l : Level) (res a b : List ℕ)
    → length res ≡ r_size l
    → IsPoly l a
    → IsPoly l b
    → IsPoly l (gf2x_add res a b (r_size l))
gf2x_add-IsPoly l res a b len sa sb =
    let size : length (gf2x_add res a b (r_size l)) ≡ r_size l =
      length-gf2x_add res a b (r_size l) ∙ len in
    record {
      size = size;
      bytes = λ i. elim (lt_or_le i (r_size l)) [
        | inl h ↦ rw (word i h) (bit_xor-lt 8 _ _ (sa.bytes i) (sb.bytes i))
        | inr g ↦
            rw (get_or_past (gf2x_add res a b (r_size l)) i 0 (omega (arith, size))) (omega arith)
      ];
      past = λ p k. elim (lt_or_le p (8 * r_size l)) [
        | inl m ↦
            gf2x_add_lem res a b (r_size l) p (omega (arith, len)) m
            ∙ ap₂ xor (sa.past p k) (sb.past p k)
            ∙ unfold xor in refl
        | inr g ↦ byte_bit_past _ p (omega (arith, size))
      ];
    }
  where
    word :
        (i : ℕ)
        → i < r_size l
        → get_or (gf2x_add res a b (r_size l)) i 0 ≡ bit_xor (get_or a i 0) (get_or b i 0)
    word i h =
        unfold gf2x_add in
        fill_inside 0 (λ j r. bit_xor (get_or a j 0) (get_or b j 0)) (λ k xs ys e. refl) (r_size l)
          0 res i (omega arith) (omega arith) (omega (arith, len))

-- The polynomial 0.
pub zeros-IsPoly : (l : Level) → IsPoly l (replicate (r_size l) 0)
zeros-IsPoly l = record {
  size = length-replicate {A = ℕ} (r_size l) 0;
  bytes = λ i. rw (get_or-replicate {A = ℕ} (r_size l) 0 i) (omega arith);
  past = λ p h.
      unfold byte_bit in
      (ap (λ t. bit t (p % 8)) (get_or-replicate {A = ℕ} (r_size l) 0 (p / 8)) ∙ bit-zero (p % 8));
}

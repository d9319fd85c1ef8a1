-- ===== src/Decode/Shown.antt =====
-- What one iteration of `decode` stands for, and the vectors that `find_err1` and `find_err2` leave.
use bike_modify.Base.{ℕ, ◌*◌, ◌^◌, ◌≤◌, ◌<◌, ◌≡◌, refl, ap, ap₂, ◌∙◌, arith}
use bike_modify.Base.{List, length, Bool, xor, ◌&&◌, length-fill}
use bike_modify.Word.{IsWords}
use bike_modify.Bytes.{byte_bit}
use bike_modify.Params.{Level, r_bits, r_qw, r_size, dv, delta, layout}
use bike_modify.Poly.{cyclic_product}
use bike_modify.Poly.Cyclic.{cyclic_cong}
use bike_modify.Gf2x.{gf2x_add}
use bike_modify.Gf2x.Add.{gf2x_add_lem}
use bike_modify.FindErr.{Pair, find_err1, find_err2, find_err1_at}
use bike_modify.FindErr.Checks.{AreIndices}
use bike_modify.FindErr.Counters.{top}
use bike_modify.Decode.{SecretKey, Iteration, recompute_syndrome}
use bike_modify.Decode.Polynomial.{gf2x_add-IsPoly}
use bike_modify.Decode.Syndrome.{ArePolys, syndrome_digit, IsDoubled, compute_syndrome-IsDoubled}
use bike_modify.Decode.Vectors.{AreBytes}
use bike_modify.Decode.Reference.{
  Digits, Places, suspects, flip, both, without, remainder, black, gray,
}
use bike_modify.Decode.Steps.{HasDigits, HasSize, find_err1_digits, find_err2_digits}

-- What the arrays of a ciphertext or a key stand for.
unfoldable pub digits_of : Pair → Digits
digits_of x = record { poly0 = byte_bit x.val0; poly1 = byte_bit x.val1 }

unfoldable pub places_of : Pair → Places
places_of x = record { places0 = x.val0; places1 = x.val1 }

-- The index lists of the key: digits that `rotate_right` can rotate by, at most `DV` of each.
pub record AreSparse (l : Level) (over : ℕ → ℕ → ℕ) (wlist : Pair) : Type 0 where
  pub indices0 : AreIndices l over wlist.val0
  pub indices1 : AreIndices l over wlist.val1
  pub few0 : length wlist.val0 ≤ dv l
  pub few1 : length wlist.val1 ≤ dv l

pub find_err1-HasSize :
    (l : Level) (over : ℕ → ℕ → ℕ) (s : List ℕ) (e black gray wlist : Pair) (t : ℕ)
    → HasSize l black
    → HasSize l gray
    → let r = find_err1 l over s e black gray wlist t in HasSize l r.1 × HasSize l r.2
unfolding find_err1 find_err1_at
find_err1-HasSize l over s e black gray wlist t sb sg = (
  record {
    size0 = length-fill 0 _ (r_size l) 0 black.val0 ∙ sb.size0;
    size1 = length-fill 0 _ (r_size l) 0 black.val1 ∙ sb.size1;
  },
  record {
    size0 = length-fill 0 _ (r_size l) 0 gray.val0 ∙ sg.size0;
    size1 = length-fill 0 _ (r_size l) 0 gray.val1 ∙ sg.size1;
  },
)

-- The syndrome that is left with errors `f`, and the digits with many failed checks.
abbrev pub left : Level → Pair → SecretKey → Digits → ℕ → Bool
left l ct sk = remainder l (digits_of ct) (digits_of sk.bin)

abbrev pub marks : Level → Pair → SecretKey → Digits → ℕ → ℕ → Digits
marks l ct sk f t extra = suspects l (places_of sk.wlist) (left l ct sk f) t extra

-- An iteration of the code stands for the errors of the reference.
pub record Shows (l : Level) (ct : Pair) (sk : SecretKey) (it : Iteration l) (f : Digits)
    : Type 0 where
  pub errors : ArePolys l it.e
  pub black_bytes : AreBytes it.black_e
  pub gray_bytes : AreBytes it.gray_e
  pub black_size : HasSize l it.black_e
  pub gray_size : HasSize l it.gray_e
  pub same : HasDigits l it.e f
  pub doubled : IsDoubled l (left l ct sk f) it.s

module _ (l : Level) (ct : Pair) (sk : SecretKey) (sc : ArePolys l ct)
    (sh : ArePolys l sk.bin) where
  -- The syndrome of the ciphertext with errors added.
  pub recompute_syndrome-IsDoubled :
      (s : List ℕ) (e : Pair) (f : Digits)
      → length s ≡ 3 * r_qw l
      → IsWords 64 s
      → ArePolys l e
      → HasDigits l e f
      → IsDoubled l (left l ct sk f) (recompute_syndrome l s ct sk e)
  unfolding recompute_syndrome remainder syndrome_digit digits_of
  recompute_syndrome-IsDoubled s e f len words se same =
      let tmp_ct : Pair = record {
        val0 = gf2x_add ct.val0 ct.val0 e.val0 (r_size l);
        val1 = gf2x_add ct.val1 ct.val1 e.val1 (r_size l);
      } in
      let sum : ArePolys l tmp_ct = record {
        first = gf2x_add-IsPoly l ct.val0 ct.val0 e.val0 sc.first.size sc.first se.first;
        second = gf2x_add-IsPoly l ct.val1 ct.val1 e.val1 sc.second.size sc.second se.second;
      } in
      compute_syndrome-IsDoubled l (left l ct sk f) s tmp_ct sk len words sum sh (λ p h.
        ap₂ xor (added ct.val0 e.val0 sk.bin.val0 f.poly0 p sc.first.size same.digits0)
          (added ct.val1 e.val1 sk.bin.val1 f.poly1 p sc.second.size same.digits1))
    where
      added :
          (c x h : List ℕ) (g : ℕ → Bool) (p : ℕ)
          → length c ≡ r_size l
          → ((i : ℕ) → i < r_bits l → byte_bit x i ≡ g i)
          → cyclic_product (r_bits l) (byte_bit (gf2x_add c c x (r_size l))) (byte_bit h) p
            ≡ cyclic_product (r_bits l) (λ i. xor (byte_bit c i) (g i)) (byte_bit h) p
      added c x h g p size eq =
          cyclic_cong (r_bits l) _ _ _ _ p (omega (arith, layout l))
            (λ i q.
              gf2x_add_lem c c x (r_size l) i (omega (arith, size)) (omega (arith, layout l))
              ∙ ap (xor (byte_bit c i)) (eq i q))
            (λ i q. refl)

module _ (l : Level) (over : ℕ → ℕ → ℕ) (ct : Pair) (sk : SecretKey)
    (sparse : AreSparse l over sk.wlist) where
  -- The vectors that `find_err1` leaves.
  pub find_err1_lem :
      (it : Iteration l) (f : Digits) (t : ℕ)
      → Shows l ct sk it f
      → t ≤ 2 ^ top l
      → let r = find_err1 l over it.s it.e it.black_e it.gray_e sk.wlist t in
        HasDigits l r.0 (flip f (marks l ct sk f t 0))
        × HasDigits l r.1 (marks l ct sk f t 0)
        × HasDigits l r.2 (without (marks l ct sk f t 0) (marks l ct sk f t delta))
  unfolding find_err1 flip without suspects places_of
  find_err1_lem it f t i low =
      let first =
        find_err1_digits l over it.s (left l ct sk f) i.doubled sk.wlist.val0 sparse.indices0
          sparse.few0 t low it.e.val0 i.errors.first.size it.black_e.val0 it.gray_e.val0 in
      let second =
        find_err1_digits l over it.s (left l ct sk f) i.doubled sk.wlist.val1 sparse.indices1
          sparse.few1 t low it.e.val1 i.errors.second.size it.black_e.val1 it.gray_e.val1 in
      let b = i.black_size in
      let g = i.gray_size in
      (
        record {
          digits0 = λ p h.
              (first p b.size0 g.size0 h).0
              ∙ ap (λ a. xor a ((marks l ct sk f t 0).poly0 p)) (i.same.digits0 p h);
          digits1 = λ p h.
              (second p b.size1 g.size1 h).0
              ∙ ap (λ a. xor a ((marks l ct sk f t 0).poly1 p)) (i.same.digits1 p h);
        },
        record {
          digits0 = λ p h. (first p b.size0 g.size0 h).1;
          digits1 = λ p h. (second p b.size1 g.size1 h).1;
        },
        record {
          digits0 = λ p h. (first p b.size0 g.size0 h).2;
          digits1 = λ p h. (second p b.size1 g.size1 h).2;
        },
      )

  pub find_err2_lem :
      (it : Iteration l) (f m : Digits) (pos_e : Pair) (t : ℕ)
      → Shows l ct sk it f
      → HasDigits l pos_e m
      → t ≤ 2 ^ top l
      → HasDigits l
          (find_err2 l over it.s it.e pos_e sk.wlist t)
          (flip f (both m (marks l ct sk f t 0)))
  unfolding find_err2 flip both suspects places_of
  find_err2_lem it f m pos_e t i mask low =
      let first =
        find_err2_digits l over it.s (left l ct sk f) i.doubled sk.wlist.val0 sparse.indices0
          sparse.few0 t low it.e.val0 i.errors.first.size pos_e.val0 in
      let second =
        find_err2_digits l over it.s (left l ct sk f) i.doubled sk.wlist.val1 sparse.indices1
          sparse.few1 t low it.e.val1 i.errors.second.size pos_e.val1 in
      record {
        digits0 = λ p h.
            first p h
            ∙ ap₂ (λ a b. xor a (b && (marks l ct sk f t 0).poly0 p)) (i.same.digits0 p h)
                (mask.digits0 p h);
        digits1 = λ p h.
            second p h
            ∙ ap₂ (λ a b. xor a (b && (marks l ct sk f t 0).poly1 p)) (i.same.digits1 p h)
                (mask.digits1 p h);
      }

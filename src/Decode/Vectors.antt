-- ===== src/Decode/Vectors.antt =====
-- The vectors that `find_err1` and `find_err2` leave are polynomials, and other lemmas of `decode`.
use bike_modify.Base.{ℕ, zero, suc, ◌+◌, ◌^◌, ◌<◌, ◌≡◌, ◌↔◌, refl, ap, ◌∙◌, arith}
use bike_modify.Base.{List, set, fill, length-fill, for_range, Bool, false}
use bike_modify.Word.{IsWords, set-IsWords, bit_xor-lt, bit_and-lt, complement-lt}
use bike_modify.Params.{Level, r_size}
use bike_modify.Utilities.Weight.{ones}
use bike_modify.FindErr.{Pair, sum_msb, find_err1_at, find_err2_at, find_err1, find_err2}
use bike_modify.Decode.Polynomial.{IsPoly, masked-IsPoly}
use bike_modify.Decode.Syndrome.{ArePolys}

pub ones-zero : (f : ℕ → Bool) (n : ℕ) → (ones f n ≡ 0) ↔ ((p : ℕ) → p < n → f p ≡ false)
ones-zero f n = (there n, back n)
  where
    there : (n : ℕ) → ones f n ≡ 0 → (p : ℕ) → p < n → f p ≡ false
    there zero e p h = absurd (omega arith)
    there (suc n) e p h = ground (arith, ap f {x = p} {y = n}, there n (omega (arith, e)) p)

    back : (n : ℕ) → ((p : ℕ) → p < n → f p ≡ false) → ones f n ≡ 0
    back zero h = refl
    back (suc n) h = ground (arith, h n (omega arith), back n (λ p k. h p (omega arith)))

fill-IsWords :
    (w n i : ℕ) (f : ℕ → List ℕ → ℕ) (xs : List ℕ)
    → ((k : ℕ) (ys : List ℕ) → IsWords w ys → f k ys < 2 ^ w)
    → IsWords w xs
    → IsWords w (fill n i f xs)
unfolding fill for_range
fill-IsWords w zero i f xs small words = words
fill-IsWords w (suc n) i f xs small words =
    fill-IsWords w n (i + 1) f (set xs i (f i xs)) small
      (set-IsWords w xs i (f i xs) words (small i xs words))

module _ (l : Level) (over : ℕ → ℕ → ℕ) (s : List ℕ) (e : List ℕ) (se : IsPoly l e) where
  find_err1_at-IsPoly :
      (black gray wlist : List ℕ) (threshold : ℕ)
      → IsPoly l (find_err1_at l over s e black gray wlist threshold).e
  unfolding find_err1_at sum_msb
  find_err1_at-IsPoly black gray wlist threshold =
      masked-IsPoly l _ (length-fill 0 _ (r_size l) 0 e ∙ se.size) (
        fill-IsWords 8 (r_size l) 0 _ e (λ k ys w. bit_xor-lt 8 _ _ (w k) (complement-lt 8 _))
          se.bytes)

  find_err2_at-IsPoly :
      (pos_e wlist : List ℕ) (threshold : ℕ)
      → IsWords 8 pos_e
      → IsPoly l (find_err2_at l over s e pos_e wlist threshold)
  unfolding find_err2_at sum_msb
  find_err2_at-IsPoly pos_e wlist threshold small =
      masked-IsPoly l _ (length-fill 0 _ (r_size l) 0 e ∙ se.size) (
        fill-IsWords 8 (r_size l) 0 _ e
          (λ k ys w. bit_xor-lt 8 _ _ (w k) (bit_and-lt 8 _ _ (small k))) se.bytes)

pub record AreBytes (x : Pair) : Type 0 where
  pub first : IsWords 8 x.val0
  pub second : IsWords 8 x.val1

module _ (l : Level) (over : ℕ → ℕ → ℕ) where
  -- What `find_err1` and `find_err2` leave in the vectors.
  pub find_err1-ArePolys :
      (s : List ℕ) (e black gray wlist : Pair) (threshold : ℕ)
      → ArePolys l e
      → AreBytes black
      → AreBytes gray
      → let r = find_err1 l over s e black gray wlist threshold in
        ArePolys l r.0 × AreBytes r.1 × AreBytes r.2
  unfolding find_err1
  find_err1-ArePolys s e black gray wlist threshold se sb sg = (
    record {
      first =
          find_err1_at-IsPoly l over s e.val0 se.first black.val0 gray.val0 wlist.val0 threshold;
      second =
          find_err1_at-IsPoly l over s e.val1 se.second black.val1 gray.val1 wlist.val1 threshold;
    },
    record {
      first =
          unfold find_err1_at in
          unfold sum_msb in
          fill-IsWords 8 (r_size l) 0 _ black.val0 (λ k ys w. complement-lt 8 _) sb.first;
      second =
          unfold find_err1_at in
          unfold sum_msb in
          fill-IsWords 8 (r_size l) 0 _ black.val1 (λ k ys w. complement-lt 8 _) sb.second;
    },
    record {
      first =
          unfold find_err1_at in
          fill-IsWords 8 (r_size l) 0 _ gray.val0 (λ k ys w. bit_and-lt 8 _ _ (complement-lt 8 _))
            sg.first;
      second =
          unfold find_err1_at in
          fill-IsWords 8 (r_size l) 0 _ gray.val1 (λ k ys w. bit_and-lt 8 _ _ (complement-lt 8 _))
            sg.second;
    },
  )

  pub find_err2-ArePolys :
      (s : List ℕ) (e pos_e wlist : Pair) (threshold : ℕ)
      → ArePolys l e
      → AreBytes pos_e
      → ArePolys l (find_err2 l over s e pos_e wlist threshold)
  unfolding find_err2
  find_err2-ArePolys s e pos_e wlist threshold se sp = record {
    first = find_err2_at-IsPoly l over s e.val0 se.first pos_e.val0 wlist.val0 threshold sp.first;
    second =
        find_err2_at-IsPoly l over s e.val1 se.second pos_e.val1 wlist.val1 threshold sp.second;
  }

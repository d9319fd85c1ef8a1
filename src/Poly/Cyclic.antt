-- ===== src/Poly/Cyclic.antt =====
-- Products modulo `x^r - 1`.
use bike_modify.Base.{ℕ, zero, suc, ◌+◌, ◌-◌, ◌%◌, ◌≤◌, ◌<◌, ◌≡◌, refl, sym, ap, ap₂, ◌∙◌, arith}
use bike_modify.Base.{Bool, false, ◌&&◌, xor, lt_or_le, inl, inr}
use native.Mathlib.Nat.{mod-eq_of_lt, mod-add-mod, add-mod_right, mod-lt}
use bike_modify.Poly.{xor_sum, shifted, product, cyclic_product}
use bike_modify.Poly.Sum.{
  sum_cong, sum_xor, sum_split, sum_exchange, and-sum, xor_comm, xor-false, and-xor, xor-and,
}
use bike_modify.Poly.Product.{product_longer}

-- Indices modulo `r`.
wrapped : (r p i : ℕ) → i ≤ p → p < r → (p + r - i) % r ≡ p - i
wrapped r p i h l =
    ap (λ (t : ℕ). t % r) {x = p + r - i} {y = p - i + r} (omega arith)
    ∙ add-mod_right (p - i) r
    ∙ mod-eq_of_lt (omega arith)

straight : (r p i : ℕ) → p < i → i < r → (p + r - i) % r ≡ p + r - i
straight r p i h l = mod-eq_of_lt (omega arith)

sub-mod-sub :
    (r p i j : ℕ) → i < r → j < r → ((p + r - i) % r + r - j) % r ≡ (p + r - i + (r - j)) % r
sub-mod-sub r p i j h k =
    ap (λ (t : ℕ). t % r) {x = (p + r - i) % r + r - j} {y = (p + r - i) % r + (r - j)}
      (omega arith)
    ∙ mod-add-mod (p + r - i) r (r - j)

sub-sub_comm :
    (r p i j : ℕ) → i < r → j < r → ((p + r - i) % r + r - j) % r ≡ ((p + r - j) % r + r - i) % r
sub-sub_comm r p i j h k =
    sub-mod-sub r p i j h k
    ∙ ap (λ (t : ℕ). t % r) {x = p + r - i + (r - j)} {y = p + r - j + (r - i)} (omega arith)
    ∙ sym (sub-mod-sub r p j i k h)

pub cyclic_cong :
    (r : ℕ) (f f' g g' : ℕ → Bool) (p : ℕ)
    → 0 < r
    → ((i : ℕ) → i < r → f i ≡ f' i)
    → ((i : ℕ) → i < r → g i ≡ g' i)
    → cyclic_product r f g p ≡ cyclic_product r f' g' p
unfolding cyclic_product
cyclic_cong r f f' g g' p pos h k =
    sum_cong r _ _ (λ i l. ap₂ ◌&&◌ (h i l) (k ((p + r - i) % r) (mod-lt (p + r - i) pos)))

pub cyclic_xor_left :
    (r : ℕ) (f f' g : ℕ → Bool) (p : ℕ)
    → cyclic_product r (λ i. xor (f i) (f' i)) g p
      ≡ xor (cyclic_product r f g p) (cyclic_product r f' g p)
unfolding cyclic_product
cyclic_xor_left r f f' g p =
    sum_cong r _ _ (λ i l. xor-and (f i) (f' i) (g ((p + r - i) % r)))
    ∙ sum_xor r (λ i. f i && g ((p + r - i) % r)) (λ i. f' i && g ((p + r - i) % r))

-- The sum backwards.
sum_reverse : (n : ℕ) (h : ℕ → Bool) → xor_sum n h ≡ xor_sum n (λ i. h (n - 1 - i))
unfolding xor_sum
sum_reverse zero h = refl
sum_reverse (suc n) h =
    ap (λ t. xor t (h n)) (sum_reverse n h)
    ∙ xor_comm (xor_sum n (λ i. h (n - 1 - i))) (h n)
    ∙ ap₂ xor (sym (xor-false (h n)) ∙ xor_comm (h n) false ∙ sym one)
        (sum_cong n _ (λ i. h (suc n - 1 - (1 + i))) (λ i l. ap h (omega arith)))
    ∙ sym (sum_split 1 n (λ i. h (suc n - 1 - i)))
    ∙ ap (λ t. xor_sum t (λ i. h (suc n - 1 - i))) {x = 1 + n} {y = suc n} (omega arith)
  where
    one : xor_sum 1 (λ i. h (suc n - 1 - i)) ≡ xor false (h n)
    one = unfold xor_sum in ap (xor false) (ap h {x = suc n - 1 - 0} {y = n} (omega arith))

-- The order of the factors does not matter.
pub cyclic_comm :
    (r : ℕ) (f g : ℕ → Bool) (p : ℕ) → p < r → cyclic_product r f g p ≡ cyclic_product r g f p
cyclic_comm r f g p h =
    halves f g
    ∙ ap₂ xor
        (sum_reverse (suc p) (λ i. f i && g (p - i))
          ∙ sum_cong (suc p) _ (λ i. g i && f (p - i))
              (λ i l.
                swap (f (suc p - 1 - i)) (g (p - (suc p - 1 - i)))
                ∙ ap₂ ◌&&◌ (ap g {x = p - (suc p - 1 - i)} {y = i} (omega arith))
                    (ap f {x = suc p - 1 - i} {y = p - i} (omega arith))))
        (sum_reverse (r - suc p) (λ i. f (suc p + i) && g (r - 1 - i))
          ∙ sum_cong (r - suc p) _ (λ i. g (suc p + i) && f (r - 1 - i))
              (λ i l.
                swap (f (suc p + (r - suc p - 1 - i))) (g (r - 1 - (r - suc p - 1 - i)))
                ∙ ap₂ ◌&&◌ (ap g {x = r - 1 - (r - suc p - 1 - i)} {y = suc p + i} (omega arith))
                    (ap f {x = suc p + (r - suc p - 1 - i)} {y = r - 1 - i} (omega arith))))
    ∙ sym (halves g f)
  where
    swap : (a b : Bool) → (a && b) ≡ (b && a)
    swap a b = ground arith

    halves :
        (f g : ℕ → Bool)
        → cyclic_product r f g p
          ≡ xor
              (xor_sum (suc p) (λ i. f i && g (p - i)))
              (xor_sum (r - suc p) (λ i. f (suc p + i) && g (r - 1 - i)))
    halves f g =
        unfold cyclic_product in
        ap (λ t. xor_sum t (λ i. f i && g ((p + r - i) % r))) {x = r} {y = suc p + (r - suc p)}
          (omega arith)
        ∙ sum_split (suc p) (r - suc p) (λ i. f i && g ((p + r - i) % r))
        ∙ ap₂ xor
            (sum_cong (suc p) _ _ (λ i l.
              ap (λ t. f i && g t) {x = (p + r - i) % r} {y = p - i}
                (wrapped r p i (omega arith) h)))
            (sum_cong (r - suc p) _ _ (λ i l.
              ap (λ t. f (suc p + i) && g t) {x = (p + r - (suc p + i)) % r} {y = r - 1 - i}
                (straight r p (suc p + i) (omega arith) (omega arith) ∙ omega arith)))

-- With three factors, the first two can be exchanged.
pub cyclic_left_comm :
    (r : ℕ) (f g h : ℕ → Bool) (p : ℕ)
    → p < r
    → cyclic_product r f (cyclic_product r g h) p ≡ cyclic_product r g (cyclic_product r f h) p
unfolding cyclic_product
cyclic_left_comm r f g h p l =
    sum_cong r _ _ (λ i k. and-sum r (f i) (λ j. g j && h (((p + r - i) % r + r - j) % r)))
    ∙ sum_exchange r r (λ i j. f i && (g j && h (((p + r - i) % r + r - j) % r)))
    ∙ sum_cong r _ _ (λ j m.
      sum_cong r _ _ (λ i k.
        order (f i) (g j) _
        ∙ ap (λ t. g j && (f i && h t)) {x = ((p + r - i) % r + r - j) % r}
            {y = ((p + r - j) % r + r - i) % r} (sub-sub_comm r p i j k m))
      ∙ sym (and-sum r (g j) (λ i. f i && h (((p + r - j) % r + r - i) % r))))
  where
    order : (a b c : Bool) → (a && (b && c)) ≡ (b && (a && c))
    order a b c = ground arith

-- The product of two polynomials of `r` terms, with the digits from `r` on added to the first ones.
pub cyclic_product_lem :
    (r m : ℕ) (f g : ℕ → Bool) (p : ℕ)
    → p < r
    → ((i : ℕ) → r ≤ i → f i ≡ false)
    → ((i : ℕ) → r ≤ i → g i ≡ false)
    → xor (product (r + m) f g p) (product (r + m) f g (p + r)) ≡ cyclic_product r f g p
cyclic_product_lem r m f g p h f_past g_past =
    ap₂ xor (product_longer r m f g p f_past) (product_longer r m f g (p + r) f_past)
    ∙ unfold product in
      unfold cyclic_product in
      sym (sum_xor r (λ i. f i && shifted i g p) (λ i. f i && shifted i g (p + r)))
      ∙ sum_cong r _ _ (λ i l.
        sym (and-xor (f i) (shifted i g p) (shifted i g (p + r))) ∙ ap (λ t. f i && t) (term i l))
  where
    term : (i : ℕ) → i < r → xor (shifted i g p) (shifted i g (p + r)) ≡ g ((p + r - i) % r)
    term i l = elim (lt_or_le p i) [
      | inl k ↦ ground (
        arith,
        xor_comm false (g (p + r - i)),
        xor-false (g (p + r - i)),
        ap g (straight r p i k l),
      )
      | inr k ↦
          ground (
            arith,
            g_past (p + r - i) (omega arith),
            xor-false (g (p - i)),
            ap g (wrapped r p i k h),
          )
    ]

-- What a secret key's first polynomial makes of the second part of its public key times `m` is what the
-- second makes of the first part.
pub keys_cancel :
    (r : ℕ) (m g h0 h1 : ℕ → Bool) (p : ℕ)
    → p < r
    → cyclic_product r (cyclic_product r m (cyclic_product r g h1)) h0 p
      ≡ cyclic_product r (cyclic_product r m (cyclic_product r g h0)) h1 p
keys_cancel r m g h0 h1 p h =
    collect h0 h1
    ∙ cyclic_cong r m m _ _ p (omega arith) (λ i l. refl)
        (λ i l.
          cyclic_cong r g g _ _ i (omega arith) (λ j k. refl) (λ j k. cyclic_comm r h0 h1 j k))
    ∙ sym (collect h1 h0)
  where
    collect :
        (x y : ℕ → Bool)
        → cyclic_product r (cyclic_product r m (cyclic_product r g y)) x p
          ≡ cyclic_product r m (cyclic_product r g (cyclic_product r x y)) p
    collect x y =
        cyclic_comm r (cyclic_product r m (cyclic_product r g y)) x p h
        ∙ cyclic_left_comm r x m (cyclic_product r g y) p h
        ∙ cyclic_cong r m m _ _ p (omega arith) (λ i l. refl) (λ i l. cyclic_left_comm r x g y i l)

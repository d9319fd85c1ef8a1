-- ===== src/Prf/Stream.antt =====
-- The bytes that `aes_ctr_prf` gives out are consecutive bytes of one key stream.
use bike_modify.Base.{
  ℕ, zero, suc, ◌+◌, ◌-◌, ◌*◌, ◌/◌, ◌%◌, ◌^◌, ◌≤◌, ◌<◌, ◌≡◌, refl, sym, ap, ap₂, ◌∙◌, arith,
}
use bike_modify.Base.{List, [], ◌∷◌, ◌++◌, take_whole, take, drop, length, get_or, ◌==◌, inl, inr}
use bike_modify.Base.{lt_or_le, le→leb, gt→leb, true, false}
use bike_modify.Result.{ok, fail, aes_over_used, ◌>>=◌}
use bike_modify.Prf.{Aes, State, full_blocks, perform_aes}

module _ {ℓ} {A : Type ℓ} where
  take-drop-suc :
      (d : A) (xs : List A) (p k : ℕ)
      → p < length xs
      → take (suc k) (drop p xs) ≡ get_or xs p d ∷ take k (drop (suc p) xs)
  take-drop-suc d [] p k h = absurd (omega arith)
  take-drop-suc d (x ∷ xs) zero k h = refl
  take-drop-suc d (x ∷ xs) (suc p) k h = take-drop-suc d xs p k (omega arith)

module _ (aes : Aes) where
  open aes use {Ks, enc}

  -- Byte `n` of the key stream: block `n / 16` is the encryption of that number.
  abbrev pub stream_byte : Ks → ℕ → ℕ
  stream_byte ks n = get_or (enc ks (n / 16) 0) (n % 16) 0

  -- `k` bytes of the key stream from byte `n` on.
  abbrev pub stream : Ks → ℕ → ℕ → List ℕ
  stream ks n zero = []
  stream ks n (suc k) = stream_byte ks n ∷ stream ks (n + 1) k

  pub length-stream : (ks : Ks) (n k : ℕ) → length (stream ks n k) ≡ k
  length-stream ks n zero = refl
  length-stream ks n (suc k) = ap suc (length-stream ks (n + 1) k)

  pub stream_add :
      (ks : Ks) (a b n : ℕ) → stream ks n (a + b) ≡ stream ks n a ++ stream ks (n + a) b
  stream_add ks zero b n =
      ap₂ (stream ks) {x = n} {y = n + 0} {u = 0 + b} {v = b} (omega arith) (omega arith)
  stream_add ks (suc a) b n =
      ap (stream ks n) {x = suc a + b} {y = suc (a + b)} (omega arith)
      ∙ ap (λ t. stream_byte ks n ∷ t)
          (stream_add ks a b (n + 1)
            ∙ ap (λ t. stream ks (n + 1) a ++ stream ks t b) {x = n + 1 + a} {y = n + suc a}
                (omega arith))

  -- A part of an array that holds bytes of the stream.
  pub slice-stream :
      (ks : Ks) (xs : List ℕ) (k p n : ℕ)
      → p + k ≤ length xs
      → ((i : ℕ) → i < k → get_or xs (p + i) 0 ≡ stream_byte ks (n + i))
      → take k (drop p xs) ≡ stream ks n k
  slice-stream ks xs zero p n h e = refl
  slice-stream ks xs (suc k) p n h e =
      take-drop-suc 0 xs p k (omega arith)
      ∙ ap₂ ◌∷◌
          (ap (λ t. get_or xs t 0) {x = p} {y = p + 0} (omega arith)
            ∙ e 0 (omega arith)
            ∙ ap (stream_byte ks) {x = n + 0} {y = n} (omega arith))
          (slice-stream ks xs k (suc p) (n + 1) (omega arith) (λ i l.
            ap (λ t. get_or xs t 0) {x = suc p + i} {y = p + suc i} (omega arith)
            ∙ e (suc i) (omega arith)
            ∙ ap (stream_byte ks) {x = n + suc i} {y = n + 1 + i} (omega arith)))

  pub block_byte :
      (ks : Ks) (c i : ℕ) → i < 16 → get_or (enc ks c 0) i 0 ≡ stream_byte ks (16 * c + i)
  block_byte ks c i h =
      ap₂ (λ a b. get_or (enc ks a 0) b 0) {x = c} {y = (16 * c + i) / 16} {u = i}
        {v = (16 * c + i) % 16} (omega arith) (omega arith)

  pub block_start : (ks : Ks) (c k : ℕ) → k ≤ 16 → take k (enc ks c 0) ≡ stream ks (16 * c) k
  block_start ks c k h =
      slice-stream ks (enc ks c 0) k 0 (16 * c) (omega (arith, aes.length-enc ks c 0)) (λ i l.
        ap (λ t. get_or (enc ks c 0) t 0) {x = 0 + i} {y = i} (omega arith)
        ∙ block_byte ks c i (omega arith))

  pub perform_aes-ok :
      (s : State aes)
      → 0 < s.rem_invokations
      → perform_aes aes s
        ≡ ok (
          enc s.ks s.ctr0 s.ctr1,
          record s { ctr0 = (s.ctr0 + 1) % 2 ^ 64; rem_invokations = s.rem_invokations - 1 },
        )
  unfolding perform_aes
  perform_aes-ok s h = rw (ne_zero s.rem_invokations h)
    where
      ne_zero : (n : ℕ) → 0 < n → (n == 0) ≡ false
      ne_zero n h = ground arith

  pub perform_aes-fail :
      (s : State aes) → s.rem_invokations ≡ 0 → perform_aes aes s ≡ fail aes_over_used
  unfolding perform_aes
  perform_aes-fail s e = rw (is_zero s.rem_invokations e)
    where
      is_zero : (n : ℕ) → n ≡ 0 → (n == 0) ≡ true
      is_zero n h = ground arith

  -- The state after `m` blocks.
  pub record IsAfter (s : State aes) (m : ℕ) (t : State aes) : Type 0 where
    pub ctr0 : t.ctr0 ≡ s.ctr0 + m
    pub ctr1 : t.ctr1 ≡ 0
    pub ks : t.ks ≡ s.ks
    pub rem : t.rem_invokations + m ≡ s.rem_invokations

  full_blocks-stop :
      (rounds : ℕ) (s : State aes) (left : ℕ)
      → left < 16
      → full_blocks aes rounds s left ≡ ok ([], s, left)
  unfolding full_blocks
  full_blocks-stop zero s left h = refl
  full_blocks-stop (suc rounds) s left h = rw (gt→leb left 16 h, full_blocks)

  full_blocks-step :
      (rounds : ℕ) (s : State aes) (left : ℕ)
      → 16 ≤ left
      → full_blocks aes (suc rounds) s left ≡ (
          perform_aes aes s >>= λ b.
          full_blocks aes rounds b.1 (left - 16) >>= λ r. ok (b.0 ++ r.0, r.1, r.2))
  unfolding full_blocks
  full_blocks-step rounds s left h = rw (le→leb 16 left h, full_blocks)

  abbrev after_block : State aes → State aes
  after_block s = record s { ctr0 = (s.ctr0 + 1) % 2 ^ 64; rem_invokations = s.rem_invokations - 1 }

  -- One block and the blocks that follow it.
  more_blocks :
      (s : State aes) (m : ℕ)
      → s.ctr1 ≡ 0
      → enc s.ks s.ctr0 s.ctr1 ++ stream s.ks (16 * (s.ctr0 + 1)) (16 * m)
        ≡ stream s.ks (16 * s.ctr0) (16 * (m + 1))
  more_blocks s m c =
      ap (λ t. enc s.ks s.ctr0 t ++ stream s.ks (16 * (s.ctr0 + 1)) (16 * m)) c
      ∙ ap₂ ◌++◌
          (sym (take_whole 16 (enc s.ks s.ctr0 0) (omega (arith, aes.length-enc s.ks s.ctr0 0)))
            ∙ block_start s.ks s.ctr0 16 (omega arith))
          (ap (λ t. stream s.ks t (16 * m)) {x = 16 * (s.ctr0 + 1)} {y = 16 * s.ctr0 + 16}
            (omega arith))
      ∙ sym (stream_add s.ks 16 (16 * m) (16 * s.ctr0))
      ∙ ap (stream s.ks (16 * s.ctr0)) {x = 16 + 16 * m} {y = 16 * (m + 1)} (omega arith)

  no_blocks :
      (rounds : ℕ) (s : State aes) (left : ℕ)
      → s.ctr1 ≡ 0
      → left < 16
      → (t : State aes) × (full_blocks aes rounds s left
          ≡ ok (stream s.ks (16 * s.ctr0) (16 * (left / 16)), t, left % 16))
        × IsAfter s (left / 16) t
  no_blocks rounds s left c l =
      let none_left : left / 16 ≡ 0 = omega arith in
      (
        s,
        full_blocks-stop rounds s left l
            ∙ rw none_left (ap (λ t. ok ([], s, t)) {x = left} {y = left % 16} (omega arith)),
        record { ctr0 = omega arith; ctr1 = c; ks = refl; rem = omega arith },
      )

  -- The loop over whole blocks writes the bytes of the stream that fill them.
  pub full_blocks-ok :
      (rounds : ℕ) (s : State aes) (left : ℕ)
      → s.ctr1 ≡ 0
      → s.ctr0 + s.rem_invokations ≤ 2 ^ 32
      → left / 16 ≤ rounds
      → left / 16 ≤ s.rem_invokations
      → (t : State aes) × (full_blocks aes rounds s left
          ≡ ok (stream s.ks (16 * s.ctr0) (16 * (left / 16)), t, left % 16))
        × IsAfter s (left / 16) t
  full_blocks-ok zero s left c r h k = no_blocks zero s left c (omega arith)
  full_blocks-ok (suc rounds) s left c r h k = elim (lt_or_le left 16) [
    | inl l ↦ no_blocks (suc rounds) s left c l
    | inr g ↦
        let next = after_block s in
        let (t, e, after) =
          full_blocks-ok rounds next (left - 16) c (omega arith) (omega arith) (omega arith) in
        let one : next.ctr0 ≡ s.ctr0 + 1 = omega arith in
        let fewer : (left - 16) / 16 + 1 ≡ left / 16 = omega arith in
        let bytes : enc s.ks s.ctr0 s.ctr1 ++ stream s.ks (16 * next.ctr0) (16 * ((left - 16) / 16))
            ≡ stream s.ks (16 * s.ctr0) (16 * (left / 16)) =
          ap (λ t. enc s.ks s.ctr0 s.ctr1 ++ stream s.ks (16 * t) (16 * ((left - 16) / 16))) one
          ∙ more_blocks s ((left - 16) / 16) c
          ∙ ap (λ t. stream s.ks (16 * s.ctr0) (16 * t)) fewer in
        (
          t,
          full_blocks-step rounds s left g
              ∙ rw (perform_aes-ok s (omega arith), e)
                  (ap₂ (λ a b. ok (a, t, b)) {u = (left - 16) % 16} {v = left % 16} bytes
                    (omega arith)),
          record {
            ctr0 = omega (arith, after.ctr0, one, fewer);
            ctr1 = after.ctr1;
            ks = after.ks;
            rem = omega (arith, after.rem, fewer);
          },
        )
  ]

  -- It fails if so many blocks are not allowed any more.
  pub full_blocks-fail :
      (rounds : ℕ) (s : State aes) (left : ℕ)
      → left / 16 ≤ rounds
      → s.rem_invokations < left / 16
      → full_blocks aes rounds s left ≡ fail aes_over_used
  full_blocks-fail zero s left h k = absurd (omega arith)
  full_blocks-fail (suc rounds) s left h k =
      full_blocks-step rounds s left (omega arith) ∙ elim (lt_or_le 0 s.rem_invokations) [
        | inl l ↦ rw (
          perform_aes-ok s l,
          full_blocks-fail rounds (after_block s) (left - 16) (omega arith) (omega arith),
        )
        | inr g ↦ rw (perform_aes-fail s (omega arith))
      ]

-- ===== src/Prf/Draw.antt =====
-- `aes_ctr_prf` against the key stream: what it writes, and when it fails.
use bike_modify.Base.{
  ℕ, ◌+◌, ◌-◌, ◌*◌, ◌/◌, ◌%◌, ◌^◌, ◌≤◌, ◌<◌, ◌≡◌, refl, sym, ap, ap₂, ◌∙◌, arith,
}
use bike_modify.Base.{
  List, ◌++◌, take, drop, length, get_or, leb, if◌then◌else◌, inl, inr, lt_or_le, le→leb, gt→leb,
  ◌==◌, false, replicate,
}
use bike_modify.Result.{Result, ok, fail, aes_over_used}
use bike_modify.Prf.{Aes, State, aes_ctr_prf, init_aes_ctr_prf_state}
use bike_modify.Prf.Stream.{
  stream, stream_byte, stream_add, slice-stream, block_byte, block_start, perform_aes-ok,
}
use bike_modify.Prf.Stream.{perform_aes-fail, full_blocks-ok, full_blocks-fail}

module _ (aes : Aes) where
  open aes use {Ks, enc}

  -- The next byte that the state gives out is byte `n` of its key stream.
  pub record IsAt (s : State aes) (n : ℕ) : Type 0 where
    pub high : s.ctr1 ≡ 0
    pub room : s.ctr0 + s.rem_invokations ≤ 2 ^ 32
    pub size : length s.buffer ≡ 16
    pub place : n + 16 ≡ 16 * s.ctr0 + s.pos
    pub within : s.pos ≤ 16
    pub held :
        (i : ℕ) → s.pos ≤ i → i < 16 → get_or s.buffer i 0 ≡ stream_byte aes s.ks (n + (i - s.pos))

  -- The blocks that a call has to encrypt.
  abbrev pub blocks_needed : State aes → ℕ → ℕ
  blocks_needed s len = if leb (len + s.pos) 16 then 0 else (len + s.pos - 16) / 16 + 1

  -- What is left in the buffer.
  held-stream :
      (s : State aes) (n k : ℕ)
      → IsAt s n
      → k + s.pos ≤ 16
      → take k (drop s.pos s.buffer) ≡ stream aes s.ks n k
  held-stream s n k a h = slice-stream aes s.ks s.buffer k s.pos n (omega (arith, a.size)) (λ i l.
      a.held (s.pos + i) (omega arith) (omega arith)
      ∙ ap (stream_byte aes s.ks) {x = n + (s.pos + i - s.pos)} {y = n + i} (omega arith))

  record Draws (s : State aes) (n len : ℕ) (result : Result (List ℕ × State aes)) : Type 0 where
    after : State aes
    returns : result ≡ ok (stream aes s.ks n len, after)
    at : IsAt after (n + len)
    same_key : after.ks ≡ s.ks
    used : after.rem_invokations + blocks_needed s len ≡ s.rem_invokations

  from_buffer :
      (s : State aes) (n len : ℕ)
      → IsAt s n
      → len + s.pos ≤ 16
      → Draws s n len (aes_ctr_prf aes s len)
  unfolding aes_ctr_prf
  from_buffer s n len a h = record {
    after = record s { pos = (s.pos + len) % 2 ^ 8 };
    returns =
        rw (le→leb ((len + s.pos) % 2 ^ 32) 16 (omega arith))
          (ap (λ t. ok (t, record s { pos = (s.pos + len) % 2 ^ 8 })) (held-stream s n len a h));
    at = record {
      high = a.high;
      room = a.room;
      size = a.size;
      place = omega (arith, a.place);
      within = omega arith;
      held = λ i p q.
          a.held i (omega arith) q
          ∙ ap (stream_byte aes s.ks) {x = n + (i - s.pos)}
              {y = n + len + (i - (s.pos + len) % 2 ^ 8)} (omega arith);
    };
    same_key = refl;
    used = rw (le→leb (len + s.pos) 16 h) (omega arith);
  }

  from_blocks :
      (s : State aes) (n len : ℕ)
      → IsAt s n
      → len + 16 < 2 ^ 32
      → 16 < len + s.pos
      → blocks_needed s len ≤ s.rem_invokations
      → Draws s n len (aes_ctr_prf aes s len)
  unfolding aes_ctr_prf
  from_blocks s n len a small h enough =
      let idx = 16 - s.pos in
      let left = len - idx in
      let fresh : State aes = record s { pos = 0 } in
      let need : blocks_needed s len ≡ left / 16 + 1 =
        rw (gt→leb 16 (len + s.pos) h) (omega (arith, a.within)) in
      let (t, e, after) =
        full_blocks-ok aes len fresh left a.high a.room (omega arith) (omega (arith, need)) in
      let tail : take (left % 16) (enc t.ks t.ctr0 t.ctr1)
          ≡ stream aes s.ks (16 * t.ctr0) (left % 16) =
        ap₂ (λ k c. take (left % 16) (enc k t.ctr0 c)) after.ks after.ctr1
        ∙ block_start aes s.ks t.ctr0 (left % 16) (omega arith) in
      let rest : stream aes s.ks (16 * s.ctr0) (16 * (left / 16))
            ++ take (left % 16) (enc t.ks t.ctr0 t.ctr1)
          ≡ stream aes s.ks (n + idx) left =
        ap (λ x. stream aes s.ks (16 * s.ctr0) (16 * (left / 16)) ++ x)
          (tail
            ∙ ap (λ x. stream aes s.ks x (left % 16)) {x = 16 * t.ctr0}
                {y = 16 * s.ctr0 + 16 * (left / 16)} (omega (arith, after.ctr0)))
        ∙ sym (stream_add aes s.ks (16 * (left / 16)) (left % 16) (16 * s.ctr0))
        ∙ ap₂ (stream aes s.ks) {x = 16 * s.ctr0} {y = n + idx} {u = 16 * (left / 16) + left % 16}
            {v = left} (omega (arith, a.place, a.within)) (omega arith) in
      let whole : take idx (drop s.pos s.buffer)
            ++ (stream aes s.ks (16 * s.ctr0) (16 * (left / 16))
                ++ take (left % 16) (enc t.ks t.ctr0 t.ctr1))
          ≡ stream aes s.ks n len =
        ap₂ ◌++◌ (held-stream s n idx a (omega (arith, a.within))) rest
        ∙ sym (stream_add aes s.ks idx left n)
        ∙ ap (stream aes s.ks n) {x = idx + left} {y = len} (omega arith) in
      let last : State aes = record t {
        ctr0 = (t.ctr0 + 1) % 2 ^ 64;
        rem_invokations = t.rem_invokations - 1;
        buffer = enc t.ks t.ctr0 t.ctr1;
        pos = left % 16 % 2 ^ 8;
      } in
      record {
        after = last;
        returns =
            rw
              (
                gt→leb 16 ((len + s.pos) % 2 ^ 32) (omega (arith, a.within)),
                e,
                perform_aes-ok aes t (omega (arith, after.rem, need)),
              )
              (ap (λ x. ok (x, last)) whole);
        at = record {
          high = after.ctr1;
          room = omega (arith, after.ctr0, after.rem, a.room, need);
          size = aes.length-enc t.ks t.ctr0 t.ctr1;
          place = omega (arith, a.place, after.ctr0, after.rem, a.room, need);
          within = omega arith;
          held = λ i p q.
              ap (λ c. get_or (enc t.ks t.ctr0 c) i 0) after.ctr1
              ∙ block_byte aes t.ks t.ctr0 i q
              ∙ ap (stream_byte aes t.ks) {x = 16 * t.ctr0 + i}
                  {y = n + len + (i - left % 16 % 2 ^ 8)} (omega (arith, a.place, after.ctr0));
        };
        same_key = after.ks;
        used = omega (arith, after.rem, need);
      }

  -- A state that has given out `n` bytes of its key stream writes the next `len` bytes of it, and is
  -- then a state that has given out `n + len`, under the same key; a block is encrypted only when
  -- the buffer does not hold the bytes. This holds whenever the invocations that are left are
  -- enough, for every length that 32 bits can add to the position.
  pub aes_ctr_prf_lem :
      (s : State aes) (n len : ℕ)
      → IsAt s n
      → len + 16 < 2 ^ 32
      → blocks_needed s len ≤ s.rem_invokations
      → (t : State aes) × (aes_ctr_prf aes s len ≡ ok (stream aes s.ks n len, t))
        × IsAt t (n + len)
        × (t.ks ≡ s.ks)
        × (t.rem_invokations + blocks_needed s len ≡ s.rem_invokations)
  aes_ctr_prf_lem s n len a small enough = elim (lt_or_le 16 (len + s.pos)) [
    | inl h ↦
        let d = from_blocks s n len a small h enough in
        (d.after, d.returns, d.at, d.same_key, d.used)
    | inr h ↦ let d = from_buffer s n len a h in (d.after, d.returns, d.at, d.same_key, d.used)
  ]

  -- From such a state it fails with `E_AES_OVER_USED` if the invocations that are left are fewer than
  -- the blocks that are needed, for every length that 32 bits can add to the position.
  pub aes_ctr_prf-fail :
      (s : State aes) (n len : ℕ)
      → IsAt s n
      → len + 16 < 2 ^ 32
      → s.rem_invokations < blocks_needed s len
      → aes_ctr_prf aes s len ≡ fail aes_over_used
  unfolding aes_ctr_prf
  aes_ctr_prf-fail s n len a small few = elim (lt_or_le 16 (len + s.pos)) [
    | inr h ↦ absurd (none_less s.rem_invokations (rw (le→leb (len + s.pos) 16 h) at few))
    | inl h ↦
        let left = len - (16 - s.pos) in
        let fresh : State aes = record s { pos = 0 } in
        let need : blocks_needed s len ≡ left / 16 + 1 =
          rw (gt→leb 16 (len + s.pos) h) (omega (arith, a.within)) in
        let past : leb ((len + s.pos) % 2 ^ 32) 16 ≡ false =
          gt→leb 16 ((len + s.pos) % 2 ^ 32) (omega (arith, a.within)) in
        elim (lt_or_le s.rem_invokations (left / 16)) [
          | inl l ↦ rw (past, full_blocks-fail aes len fresh left (omega arith) l)
          | inr g ↦
              let (t, e, after) = full_blocks-ok aes len fresh left a.high a.room (omega arith) g in
              rw (past, e, perform_aes-fail aes t (omega (arith, after.rem, need)))
        ]
  ]
    where
      none_less : (m : ℕ) → m < 0 → ⊥
      none_less m h = omega arith

  pub blocks_needed-le : (s : State aes) (len : ℕ) → s.pos ≤ 16 → blocks_needed s len ≤ len / 16 + 1
  blocks_needed-le s len h = ground arith

  -- From a state at byte `n` of its key stream, asking for `a` bytes and then for `b` writes what asking for `a + b` at once would write, if the
  -- invocations left are enough for both.
  pub aes_ctr_prf_split :
      (s : State aes) (n a b : ℕ)
      → IsAt s n
      → a + b + 16 < 2 ^ 32
      → a / 16 + b / 16 + 2 ≤ s.rem_invokations
      → (u v t : State aes) × (xs ys : List ℕ) × (aes_ctr_prf aes s a ≡ ok (xs, u))
        × (aes_ctr_prf aes u b ≡ ok (ys, v))
        × (aes_ctr_prf aes s (a + b) ≡ ok (xs ++ ys, t))
  aes_ctr_prf_split s n a b start small enough =
      let within = start.within in
      let (u, e, at_u, key_u, used_u) =
        aes_ctr_prf_lem s n a start (omega arith) (omega (arith, blocks_needed-le s a within)) in
      let (v, f, at_v, key_v, used_v) =
        aes_ctr_prf_lem u (n + a) b at_u (omega arith)
          (omega (arith, used_u, blocks_needed-le s a within, blocks_needed-le u b at_u.within)) in
      let (t, g, at_t, key_t, used_t) =
        aes_ctr_prf_lem s n (a + b) start (omega arith)
          (omega (arith, blocks_needed-le s (a + b) within)) in
      (
        u,
        v,
        t,
        stream aes s.ks n a,
        stream aes s.ks (n + a) b,
        e,
        f ∙ ap (λ k. ok (stream aes k (n + a) b, v)) key_u,
        g ∙ ap (λ x. ok (x, t)) (stream_add aes s.ks a b n),
      )

  -- With 1 to 2^32 invocations `init_aes_ctr_prf_state` returns a state at the start of the key stream
  -- of its seed, with that many invocations left.
  pub init_aes_ctr_prf_state-IsAt :
      (max : ℕ) (seed : List ℕ)
      → 0 < max
      → max ≤ 2 ^ 32
      → (s : State aes) × (init_aes_ctr_prf_state aes max seed ≡ ok s)
        × IsAt s 0
        × (s.ks ≡ aes.expand seed)
        × (s.rem_invokations ≡ max)
  unfolding init_aes_ctr_prf_state
  init_aes_ctr_prf_state-IsAt max seed h k = (
    record {
      ctr0 = 0;
      ctr1 = 0;
      buffer = replicate 16 0;
      ks = aes.expand seed;
      rem_invokations = max;
      pos = 16;
    },
    rw (not_zero max h),
    record {
      high = refl;
      room = omega arith;
      size = refl;
      place = omega arith;
      within = omega arith;
      held = λ i p q. absurd (omega arith);
    },
    refl,
    refl,
  )
    where
      not_zero : (m : ℕ) → 0 < m → (m == 0) ≡ false
      not_zero m h = ground arith

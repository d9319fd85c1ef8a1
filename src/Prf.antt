-- ===== src/Prf.antt =====
-- prf/aes_ctr_prf.c: the pseudorandom function, AES-256 in counter mode behind a buffer of one block.
pub mod Stream
pub mod Draw
use bike_modify.Base.{
  ℕ, zero, suc, ◌+◌, ◌-◌, ◌%◌, ◌^◌, ◌≤◌, List, [], ◌∷◌, ◌++◌, take, drop, length, replicate,
}
use bike_modify.Base.{Bool, true, false, leb, ◌==◌, if◌then◌else◌, ◌≡◌}
use bike_modify.Result.{Result, ok, fail, Error, aes_ctr_prf_init_fail, aes_over_used, ◌>>=◌}

-- What prf/aes.h gives: the key schedule and the encryption of a block, here the counter, whose two
-- halves are `ctr.u.qw[0]` and `ctr.u.qw[1]`. Both are done by processor instructions or by OpenSSL.
pub record Aes : Type 1 where
  pub Ks : Type 0
  pub expand : List ℕ → Ks
  pub enc : Ks → ℕ → ℕ → List ℕ
  pub length-enc : (ks : Ks) (lo hi : ℕ) → length (enc ks lo hi) ≡ 16

-- `AES256_BLOCK_SIZE`
abbrev pub block_size : ℕ
block_size = 16

-- `MAX_AES_INVOKATION`
abbrev pub max_aes_invokation : ℕ
max_aes_invokation = 2 ^ 32 - 1

module _ (aes : Aes) where
  open aes use {Ks, expand, enc}

  -- `aes_ctr_prf_state_t`
  pub record State : Type 0 where
    pub ctr0 : ℕ
    pub ctr1 : ℕ
    pub buffer : List ℕ
    pub ks : Ks
    pub rem_invokations : ℕ
    pub pos : ℕ

  unfoldable pub init_aes_ctr_prf_state : ℕ → List ℕ → Result State
  init_aes_ctr_prf_state max_invokations seed =
      if max_invokations == 0
      then fail aes_ctr_prf_init_fail
      else ok (record {
        ctr0 = 0;
        ctr1 = 0;
        buffer = replicate 16 0;
        ks = expand seed;
        rem_invokations = max_invokations;
        pos = block_size;
      })

  -- The block, and the state after it. `ctr.u.qw[0]++` wraps in 64 bits.
  unfoldable pub perform_aes : State → Result (List ℕ × State)
  perform_aes s =
      if s.rem_invokations == 0
      then fail aes_over_used
      else ok (
        enc s.ks s.ctr0 s.ctr1,
        record s { ctr0 = (s.ctr0 + 1) % 2 ^ 64; rem_invokations = s.rem_invokations - 1 },
      )

  -- `while((len - idx) >= AES256_BLOCK_SIZE)`, where `left` is `len - idx`, with a count of the rounds
  -- that are allowed: the bytes, the state and what is left to write.
  unfoldable pub full_blocks : ℕ → State → ℕ → Result (List ℕ × State × ℕ)
  full_blocks zero s left = ok ([], s, left)
  full_blocks (suc rounds) s left = elim (leb block_size left) [
    | true ↦ perform_aes s >>= λ b.
        full_blocks rounds b.1 (left - block_size) >>= λ r. ok (b.0 ++ r.0, r.1, r.2)
    | false ↦ ok ([], s, left)
  ]

  -- The `len` bytes that are written to `a`, and the state after the call. `len + pos` is computed in
  -- 32 bits and `pos` in 8.
  unfoldable pub aes_ctr_prf : State → ℕ → Result (List ℕ × State)
  aes_ctr_prf s len =
      if leb ((len + s.pos) % 2 ^ 32) block_size
      then ok (take len (drop s.pos s.buffer), record s { pos = (s.pos + len) % 2 ^ 8 })
      else (let idx = block_size - s.pos in
          let head = take idx (drop s.pos s.buffer) in
          full_blocks len (record s { pos = 0 }) (len - idx) >>= λ r. perform_aes r.1 >>= λ b.
          ok (head ++ (r.0 ++ take r.2 b.0), record b.1 { buffer = b.0; pos = r.2 % 2 ^ 8 }))

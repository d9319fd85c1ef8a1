-- ===== src/Hash/Compress.antt =====
-- One block of `sha_update` is one block of the standard.
use bike_modify.Base.{
  ℕ, zero, suc, ◌+◌, ◌*◌, ◌%◌, ◌^◌, ◌<◌, ◌≡◌, refl, sym, ap, ap₂, subst, ◌∙◌, arith,
}
use bike_modify.Base.{
  List, [], ◌∷◌, map, get_or, take, drop, get_or-take, get_or-drop, for_range, for_range_inv, ltb,
  if◌then◌else◌,
}
use bike_modify.Base.{lt_or_le, inl, inr, lt→ltb, le→ltb}
use bike_modify.Word.{IsWords, pow_byte}
use bike_modify.Hash.Roots.{k_words_lem, load_word-message_word}
use bike_modify.Hash.Constants.{constants}
use bike_modify.Hash.{load_word, Rounds, schedule, round, update_block, sha_update}
use bike_modify.Hash.Standard.{
  sigma0, sigma1, message_word, message_words, Working, working_step, working_at, compress,
  hash_blocks,
}
use bike_modify.Hash.Words.{sum0_lem, sum1_lem, sigma0_lem, sigma1_lem, choose_lem, majority_lem}

load_word-lt : (n i : ℕ) (msg : List ℕ) → IsWords 8 msg → load_word n msg i < 2 ^ (8 * n)
unfolding load_word
load_word-lt zero i msg w = omega arith
load_word-lt (suc n) i msg w = omega (arith, pow_byte n, load_word-lt n i msg w, w (i + n))

load_word_cong :
    (n i : ℕ) (msg msg' : List ℕ)
    → ((k : ℕ) → k < i + n → get_or msg k 0 ≡ get_or msg' k 0)
    → load_word n msg i ≡ load_word n msg' i
unfolding load_word
load_word_cong zero i msg msg' h = refl
load_word_cong (suc n) i msg msg' h =
    ap₂ (λ a b. a * 2 ^ 8 + b) (load_word_cong n i msg msg' (λ k l. h k (omega arith)))
      (h (i + n) (omega arith))

cons-IsWords : (x : ℕ) (xs : List ℕ) → x < 2 ^ 64 → IsWords 64 xs → IsWords 64 (x ∷ xs)
cons-IsWords x xs h k zero = h
cons-IsWords x xs h k (suc i) = k i

reduced-IsWords : (xs : List ℕ) → IsWords 64 (map (λ x. x % 2 ^ 64) xs)
reduced-IsWords [] i = omega arith
reduced-IsWords (x ∷ xs) zero = omega arith
reduced-IsWords (x ∷ xs) (suc i) = reduced-IsWords xs i

unfoldable working_of : Rounds → Working
working_of r = record { a = r.a; b = r.b; c = r.c; d = r.d; e = r.e; f = r.f; g = r.g; h = r.h }

record AreSmall (v : Working) : Type 0 where
  a_lt : v.a < 2 ^ 64
  b_lt : v.b < 2 ^ 64
  c_lt : v.c < 2 ^ 64
  d_lt : v.d < 2 ^ 64
  e_lt : v.e < 2 ^ 64
  f_lt : v.f < 2 ^ 64
  g_lt : v.g < 2 ^ 64
  h_lt : v.h < 2 ^ 64

-- One round, whatever the word of the message.
round_lem :
    (msg : List ℕ) (t : ℕ) (r : Rounds)
    → AreSmall (working_of r)
    → (working_of (round msg t r)
        ≡ working_step (get_or constants t 0) (schedule msg t r.w) (working_of r))
      × AreSmall (working_of (round msg t r))
unfolding working_of round working_step
round_lem msg t r s = (
  rw
      (
        ← k_words_lem,
        sum0_lem r.a s.a_lt,
        sum1_lem r.e s.e_lt,
        choose_lem r.e s.e_lt r.f r.g s.f_lt s.g_lt,
        majority_lem r.a s.a_lt r.b r.c s.b_lt s.c_lt,
      )
      refl,
  record {
    a_lt = omega arith;
    b_lt = s.a_lt;
    c_lt = s.b_lt;
    d_lt = s.c_lt;
    e_lt = omega arith;
    f_lt = s.e_lt;
    g_lt = s.f_lt;
    h_lt = s.g_lt;
  },
)

module _ (msg : List ℕ) (words : IsWords 8 msg) where
  abbrev block : List ℕ
  block = take 128 msg

  loaded : (t : ℕ) → t < 16 → load_word 8 msg (8 * t) ≡ message_word block t
  loaded t h =
      load_word_cong 8 (8 * t) msg block (λ k l. sym (get_or-take 128 msg k 0 (omega arith)))
      ∙ load_word-message_word block t

  schedule_lem :
      (t : ℕ) (w : List ℕ)
      → IsWords 64 w
      → (schedule msg t w ≡ (
          if ltb t 16
          then message_word block t
          else (sigma1 (get_or w 1 0) + get_or w 6 0 + sigma0 (get_or w 14 0) + get_or w 15 0)
            % 2 ^ 64))
        × (schedule msg t w < 2 ^ 64)
  unfolding schedule
  schedule_lem t w s = elim (lt_or_le t 16) [
    | inl h ↦ rw (lt→ltb t 16 h) (loaded t h, load_word-lt 8 (8 * t) msg words)
    | inr g ↦
        rw (le→ltb t 16 g, sigma0_lem (get_or w 14 0) (s 14), sigma1_lem (get_or w 1 0) (s 1))
          (omega arith, omega arith)
  ]

  -- After `t` rounds the code has the variables and the words of the standard.
  record Reached (start : Working) (t : ℕ) (r : Rounds) : Type 0 where
    same : working_of r ≡ working_at block start t
    words_so_far : r.w ≡ message_words block t
    small : AreSmall (working_of r)
    small_words : IsWords 64 r.w

  round-Reached :
      (start : Working) (t : ℕ) (r : Rounds)
      → Reached start t r
      → Reached start (suc t) (round msg t r)
  unfolding working_at
  round-Reached start t r i =
      let next = round_lem msg t r i.small in
      let word = schedule_lem t r.w i.small_words in
      let head : schedule msg t r.w ≡ get_or (round msg t r).w 0 0 = unfold round in refl in
      let all : (round msg t r).w ≡ message_words block (suc t) =
        unfold round in
        unfold message_words in
        (ap (λ v. v ∷ r.w) word.0
          ∙ ap
              (λ w.
                (if ltb t 16
                  then message_word block t
                  else (sigma1 (get_or w 1 0)
                      + get_or w 6 0
                      + sigma0 (get_or w 14 0)
                      + get_or w 15 0)
                    % 2 ^ 64)
                ∷ w)
              i.words_so_far) in
      record {
        same =
            next.0
            ∙ ap₂ (λ w v. working_step (get_or constants t 0) w v)
                (head ∙ ap (λ w. get_or w 0 0) all) i.same;
        words_so_far = all;
        small = next.1;
        small_words = unfold round in cons-IsWords _ r.w word.1 i.small_words;
      }

  pub update_block_lem :
      (hash : List ℕ)
      → IsWords 64 hash
      → (update_block hash msg ≡ compress hash block) × IsWords 64 (update_block hash msg)
  unfolding update_block compress working_of
  update_block_lem hash small =
      let q = λ (i : ℕ). get_or hash i 0 in
      let start : Rounds = record {
        a = q 0;
        b = q 1;
        c = q 2;
        d = q 3;
        e = q 4;
        f = q 5;
        g = q 6;
        h = q 7;
        w = [];
      } in
      let last =
        for_range_inv (λ t r. Reached (working_of start) t r) (round msg) 80 0 80 start
          (λ t r p k i.
            subst (λ n. Reached (working_of start) n (round msg t r)) {x = suc t} {y = t + 1}
              (omega arith) (round-Reached (working_of start) t r i))
          (omega arith)
          record {
            same = unfold working_at in refl;
            words_so_far = unfold message_words in refl;
            small = record {
              a_lt = small 0;
              b_lt = small 1;
              c_lt = small 2;
              d_lt = small 3;
              e_lt = small 4;
              f_lt = small 5;
              g_lt = small 6;
              h_lt = small 7;
            };
            small_words = λ i. omega arith;
          } in
      let r = for_range 80 0 (round msg) start in
      (
        ap
            (λ v.
              (q 0 + v.a) % 2 ^ 64
              ∷ (q 1 + v.b) % 2 ^ 64
              ∷ (q 2 + v.c) % 2 ^ 64
              ∷ (q 3 + v.d) % 2 ^ 64
              ∷ (q 4 + v.e) % 2 ^ 64
              ∷ (q 5 + v.f) % 2 ^ 64
              ∷ (q 6 + v.g) % 2 ^ 64
              ∷ (q 7 + v.h) % 2 ^ 64
              ∷ [])
            last.same,
        reduced-IsWords (
            (q 0 + r.a)
            ∷ (q 1 + r.b)
            ∷ (q 2 + r.c)
            ∷ (q 3 + r.d)
            ∷ (q 4 + r.e)
            ∷ (q 5 + r.f)
            ∷ (q 6 + r.g)
            ∷ (q 7 + r.h)
            ∷ []),
      )

-- All the blocks that the call is given.
pub sha_update_lem :
    (n : ℕ) (hash msg : List ℕ)
    → IsWords 64 hash
    → IsWords 8 msg
    → (sha_update n hash msg ≡ hash_blocks n hash msg) × IsWords 64 (sha_update n hash msg)
unfolding sha_update hash_blocks
sha_update_lem zero hash msg small words = (refl, small)
sha_update_lem (suc n) hash msg small words =
    let one = update_block_lem msg words hash small in
    let rest =
      sha_update_lem n (update_block hash msg) (drop 128 msg) one.1
        (λ i. rw (get_or-drop 128 msg i 0) (words (128 + i))) in
    (rest.0 ∙ ap (λ h. hash_blocks n h (drop 128 msg)) one.0, rest.1)

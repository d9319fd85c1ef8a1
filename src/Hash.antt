-- ===== src/Hash.antt =====
-- hash/sha.c and hash/sha384.h: SHA-384. A message is a list of bytes; the checks for null pointers
-- and the erasing of secrets are left out.
pub mod Constants
pub mod Roots
pub mod Standard
pub mod Words
pub mod Compress
pub mod Padding
use bike_modify.Base.{ℕ, zero, suc, ◌+◌, ◌-◌, ◌*◌, ◌/◌, ◌%◌, ◌^◌, bit_and, bit_or, bit_xor}
use bike_modify.Base.{
  List, [], ◌∷◌, ◌++◌, get_or, take, drop, replicate, for_range, ltb, if◌then◌else◌,
}
use bike_modify.Word.{◌>>>◌, shl}

-- `INIT_HASH`
abbrev pub init_hash : List ℕ
init_hash =
    14680500436340154072 ∷ 7105036623409894663 ∷ 10473403895298186519 ∷ 1526699215303891257
    ∷ 7436329637833083697 ∷ 10282925794625328401 ∷ 15784041429090275239 ∷ 5167115440072839076 ∷ []

-- `K`
abbrev pub k_words : List ℕ
k_words =
    4794697086780616226 ∷ 8158064640168781261 ∷ 13096744586834688815 ∷ 16840607885511220156
    ∷ 4131703408338449720 ∷ 6480981068601479193 ∷ 10538285296894168987 ∷ 12329834152419229976
    ∷ 15566598209576043074 ∷ 1334009975649890238 ∷ 2608012711638119052 ∷ 6128411473006802146
    ∷ 8268148722764581231 ∷ 9286055187155687089 ∷ 11230858885718282805 ∷ 13951009754708518548
    ∷ 16472876342353939154 ∷ 17275323862435702243 ∷ 1135362057144423861 ∷ 2597628984639134821
    ∷ 3308224258029322869 ∷ 5365058923640841347 ∷ 6679025012923562964 ∷ 8573033837759648693
    ∷ 10970295158949994411 ∷ 12119686244451234320 ∷ 12683024718118986047 ∷ 13788192230050041572
    ∷ 14330467153632333762 ∷ 15395433587784984357 ∷ 489312712824947311 ∷ 1452737877330783856
    ∷ 2861767655752347644 ∷ 3322285676063803686 ∷ 5560940570517711597 ∷ 5996557281743188959
    ∷ 7280758554555802590 ∷ 8532644243296465576 ∷ 9350256976987008742 ∷ 10552545826968843579
    ∷ 11727347734174303076 ∷ 12113106623233404929 ∷ 14000437183269869457 ∷ 14369950271660146224
    ∷ 15101387698204529176 ∷ 15463397548674623760 ∷ 17586052441742319658 ∷ 1182934255886127544
    ∷ 1847814050463011016 ∷ 2177327727835720531 ∷ 2830643537854262169 ∷ 3796741975233480872
    ∷ 4115178125766777443 ∷ 5681478168544905931 ∷ 6601373596472566643 ∷ 7507060721942968483
    ∷ 8399075790359081724 ∷ 8693463985226723168 ∷ 9568029438360202098 ∷ 10144078919501101548
    ∷ 10430055236837252648 ∷ 11840083180663258601 ∷ 13761210420658862357 ∷ 14299343276471374635
    ∷ 14566680578165727644 ∷ 15097957966210449927 ∷ 16922976911328602910 ∷ 17689382322260857208
    ∷ 500013540394364858 ∷ 748580250866718886 ∷ 1242879168328830382 ∷ 1977374033974150939
    ∷ 2944078676154940804 ∷ 3659926193048069267 ∷ 4368137639120453308 ∷ 4836135668995329356
    ∷ 5532061633213252278 ∷ 6448918945643986474 ∷ 6902733635092675308 ∷ 7801388544844847127 ∷ []

-- `HASH_BLOCK_SIZE`
abbrev pub hash_block_size : ℕ
hash_block_size = 128

-- `rotr` on 64-bit words, for `0 < imm < 64`.
abbrev pub rotr : ℕ → ℕ → ℕ
rotr x imm = bit_xor (x >>> imm) (shl 64 x (64 - imm))

-- `bswap_64` of the 8 bytes from byte `i` on, which is their value with the first byte the highest.
unfoldable pub load_word : ℕ → List ℕ → ℕ → ℕ
load_word zero msg i = 0
load_word (suc n) msg i = load_word n msg i * 2 ^ 8 + get_or msg (i + n) 0

-- The `n` bytes of a word, the highest first.
unfoldable pub store_word : ℕ → ℕ → List ℕ
store_word zero x = []
store_word (suc n) x = (x / 2 ^ (8 * n) % 2 ^ 8) ∷ store_word n x

-- The variables `a` to `h` of `sha_update`, and the words of `w` so far, the last first.
pub record Rounds : Type 0 where
  pub a : ℕ
  pub b : ℕ
  pub c : ℕ
  pub d : ℕ
  pub e : ℕ
  pub f : ℕ
  pub g : ℕ
  pub h : ℕ
  pub w : List ℕ

-- `w[i]`, from the words before it, the last first.
unfoldable pub schedule : List ℕ → ℕ → List ℕ → ℕ
schedule msg i w =
    if ltb i 16
    then load_word 8 msg (8 * i)
    else (let w15 = get_or w 14 0 in
        let w2 = get_or w 1 0 in
        let s0 = bit_xor (bit_xor (rotr w15 1) (rotr w15 8)) (w15 >>> 7) in
        let s1 = bit_xor (bit_xor (rotr w2 19) (rotr w2 61)) (w2 >>> 6) in
        (get_or w 15 0 + s0 + get_or w 6 0 + s1) % 2 ^ 64)

-- The body of the loop over `i`, on the block that starts `msg`.
unfoldable pub round : List ℕ → ℕ → Rounds → Rounds
round msg i r =
    let wi = schedule msg i r.w in
    let s0 = bit_xor (bit_xor (rotr r.a 28) (rotr r.a 34)) (rotr r.a 39) in
    let s1 = bit_xor (bit_xor (rotr r.e 14) (rotr r.e 18)) (rotr r.e 41) in
    let maj = bit_or (bit_and r.b r.c) (bit_and r.a (bit_xor r.b r.c)) in
    let ch = bit_xor r.g (bit_and r.e (bit_xor r.f r.g)) in
    let t2 = (s0 + maj) % 2 ^ 64 in
    let t1 = (r.h + s1 + ch + get_or k_words i 0 + wi) % 2 ^ 64 in
    record {
      a = (t1 + t2) % 2 ^ 64;
      b = r.a;
      c = r.b;
      d = r.c;
      e = (r.d + t1) % 2 ^ 64;
      f = r.e;
      g = r.f;
      h = r.g;
      w = wi ∷ r.w;
    }

-- One block: the body of `while(n > 0)`.
unfoldable pub update_block : List ℕ → List ℕ → List ℕ
update_block hash msg =
    let q = λ (i : ℕ). get_or hash i 0 in
    let start : Rounds = record {
      a = q 0;
      b = q 1;
      c = q 2;
      d = q 3;
      e = q 4;
      f = q 5;
      g = q 6;
      h = q 7;
      w = [];
    } in
    let r = for_range 80 0 (round msg) start in
    (q 0 + r.a) % 2 ^ 64
    ∷ (q 1 + r.b) % 2 ^ 64
    ∷ (q 2 + r.c) % 2 ^ 64
    ∷ (q 3 + r.d) % 2 ^ 64
    ∷ (q 4 + r.e) % 2 ^ 64
    ∷ (q 5 + r.f) % 2 ^ 64
    ∷ (q 6 + r.g) % 2 ^ 64
    ∷ (q 7 + r.h) % 2 ^ 64
    ∷ []

unfoldable pub sha_update : ℕ → List ℕ → List ℕ → List ℕ
sha_update zero hash msg = hash
sha_update (suc n) hash msg = sha_update n (update_block hash msg) (drop hash_block_size msg)

-- `last_len`
unfoldable pub last_length : ℕ → ℕ
last_length byte_len =
    if ltb (byte_len % hash_block_size) 112 then hash_block_size else 2 * hash_block_size

-- The first `last_len` bytes of `last_block`: the rest of the message, 0x80, zeros, and the number of
-- its bits, which the source computes in 32 bits.
unfoldable pub last_block : List ℕ → ℕ → List ℕ
last_block msg byte_len =
    let rest = byte_len % hash_block_size in
    take rest (drop (byte_len / hash_block_size * hash_block_size) msg)
    ++ (128 ∷ replicate (last_length byte_len - 8 - (rest + 1)) 0)
    ++ store_word 8 (byte_len * 8 % 2 ^ 32)

-- The bytes of the 6 words of `sha_hash_t`.
unfoldable pub store_words : ℕ → List ℕ → List ℕ
store_words zero ws = []
store_words (suc n) ws = store_word 8 (get_or ws 0 0) ++ store_words n (drop 1 ws)

unfoldable pub sha : ℕ → List ℕ → List ℕ
sha byte_len msg =
    let hash = sha_update (byte_len / hash_block_size) init_hash msg in
    let last = sha_update (last_length byte_len / hash_block_size) hash (last_block msg byte_len) in
    store_words 6 last

-- ===== src/Tests/Hash.antt =====
-- SHA-384 of "abc", which is a test vector of the standard.
use bike_modify.Base.{ℕ, zero, suc, arith, ◌≡◌, refl, List, [], ◌∷◌, for_range}
use bike_modify.Hash.{sha, sha_update, update_block, round, schedule, last_block, last_length}
use bike_modify.Word.{IsWords}
use bike_modify.Hash.Standard.{sha384}
use bike_modify.Hash.Padding.{sha_lem}
use bike_modify.Hash.{store_words, store_word, load_word}

abbrev digest : List ℕ
digest =
    203 ∷ 0 ∷ 117 ∷ 63 ∷ 69 ∷ 163 ∷ 94 ∷ 139 ∷ 181 ∷ 160 ∷ 61 ∷ 105 ∷ 154 ∷ 198 ∷ 80 ∷ 7 ∷ 39 ∷ 44
    ∷ 50 ∷ 171 ∷ 14 ∷ 222 ∷ 209 ∷ 99 ∷ 26 ∷ 139 ∷ 96 ∷ 90 ∷ 67 ∷ 255 ∷ 91 ∷ 237 ∷ 128 ∷ 134 ∷ 7 ∷ 43
    ∷ 161 ∷ 231 ∷ 204 ∷ 35 ∷ 88 ∷ 186 ∷ 236 ∷ 161 ∷ 52 ∷ 200 ∷ 37 ∷ 167 ∷ []

sha_abc : sha 3 (97 ∷ 98 ∷ 99 ∷ []) ≡ digest
unfolding sha sha_update update_block round schedule last_block last_length store_words store_word
    load_word for_range
sha_abc = refl

sha_lem_example : sha 3 (97 ∷ 98 ∷ 99 ∷ []) ≡ sha384 (97 ∷ 98 ∷ 99 ∷ [])
sha_lem_example = sha_lem (97 ∷ 98 ∷ 99 ∷ []) abc-IsWords (omega arith)
  where
    abc-IsWords : IsWords 8 (97 ∷ 98 ∷ 99 ∷ [])
    abc-IsWords zero = omega arith
    abc-IsWords (suc zero) = omega arith
    abc-IsWords (suc (suc zero)) = omega arith
    abc-IsWords (suc (suc (suc i))) = omega arith

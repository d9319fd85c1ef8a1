-- ===== src/Tests/Prf.antt =====
-- Inputs for the pseudorandom function, over a cipher that writes its counter.
use bike_modify.Base.{ℕ, ◌+◌, ◌≡◌, refl, arith, List, [], ◌∷◌, ◌++◌, replicate}
use bike_modify.Result.{ok, fail, aes_over_used}
use bike_modify.Prf.{Aes, State, aes_ctr_prf}
use bike_modify.Prf.Stream.{stream}
use bike_modify.Prf.Draw.{IsAt, blocks_needed, aes_ctr_prf_lem, aes_ctr_prf-fail, aes_ctr_prf_split}

abbrev pub counting : Aes
counting = record {
  Ks = List ℕ;
  expand = λ seed. seed;
  enc = λ ks lo hi. lo ∷ hi ∷ replicate 14 7;
  length-enc = λ ks lo hi. refl;
}

-- 4 bytes of block 0 are given out.
abbrev pub running : State counting
running = record {
  ctr0 = 1;
  ctr1 = 0;
  buffer = 0 ∷ 0 ∷ replicate 14 7;
  ks = [];
  rem_invokations = 3;
  pos = 4;
}

pub running-IsAt : IsAt counting running 4
running-IsAt = record {
  high = refl;
  room = omega arith;
  size = refl;
  place = omega arith;
  within = omega arith;
  held = λ i p q. grind arith;
}

-- 8 bytes of block 0 are given out.
abbrev pub further : State counting
further = record running { pos = 8 }

pub further-IsAt : IsAt counting further 8
further-IsAt = record {
  high = refl;
  room = omega arith;
  size = refl;
  place = omega arith;
  within = omega arith;
  held = λ i p q. grind arith;
}

aes_ctr_prf_lem_example :
    (t : State counting) × (aes_ctr_prf counting running 30 ≡ ok (stream counting [] 4 30, t))
    × IsAt counting t 34
    × (t.ks ≡ running.ks)
    × (t.rem_invokations + blocks_needed counting running 30 ≡ 3)
aes_ctr_prf_lem_example =
    aes_ctr_prf_lem counting running 4 30 running-IsAt (omega arith) (omega arith)

aes_ctr_prf-fail_example : aes_ctr_prf counting running 60 ≡ fail aes_over_used
aes_ctr_prf-fail_example =
    aes_ctr_prf-fail counting running 4 60 running-IsAt (omega arith) (omega arith)

aes_ctr_prf_split_example :
    (u v t : State counting) × (xs ys : List ℕ) × (aes_ctr_prf counting running 10 ≡ ok (xs, u))
    × (aes_ctr_prf counting u 7 ≡ ok (ys, v))
    × (aes_ctr_prf counting running (10 + 7) ≡ ok (xs ++ ys, t))
aes_ctr_prf_split_example =
    aes_ctr_prf_split counting running 4 10 7 running-IsAt (omega arith) (omega arith)

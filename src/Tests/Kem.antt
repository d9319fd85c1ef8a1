-- ===== src/Tests/Kem.antt =====
-- Inputs for the decoder as a whole and for decapsulation: a ciphertext and a key of zeros.
use bike_modify.Base.{ℕ, ◌*◌, ◌≡◌, List, [], replicate, if◌then◌else◌}
use bike_modify.Params.{level1, r_qw}
use bike_modify.Result.{ok, ◌>>=◌}
use bike_modify.FindErr.{Pair}
use bike_modify.Decode.{SecretKey, decode, compute_syndrome}
use bike_modify.Kem.{crypto_kem_dec, reencrypt, get_ss}
use bike_modify.Kem.Reject.{is_accepted, crypto_kem_dec_lem}
use bike_modify.Tests.Prf.{counting}
use bike_modify.Tests.Decoder.{x86_shift, bytes}

abbrev zeros : Pair
zeros = record { val0 = bytes; val1 = bytes }

abbrev pub key : SecretKey
key = record {
  bin = zeros;
  wlist = record { val0 = []; val1 = [] };
  sigma0 = bytes;
  sigma1 = bytes;
}

abbrev no_syndrome : List ℕ
no_syndrome = replicate 555 0

crypto_kem_dec_lem_example :
    let dec =
      decode level1 x86_shift zeros key
        (compute_syndrome level1 (replicate (3 * r_qw level1) 0) zeros key) in
    crypto_kem_dec level1 counting x86_shift no_syndrome zeros zeros zeros key ≡ (
      reencrypt level1 counting no_syndrome zeros zeros dec.0 zeros >>= λ re. ok (
        if is_accepted level1 dec.1 dec.0 re.1
        then get_ss level1 re.0.val0 re.0.val1 zeros
        else get_ss level1 bytes bytes zeros))
crypto_kem_dec_lem_example =
    crypto_kem_dec_lem level1 counting x86_shift no_syndrome zeros zeros zeros key

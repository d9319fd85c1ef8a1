-- ===== src/Tests.antt =====
-- The theorems at concrete inputs, and runs of the definitions.
mod Decoder
mod Prf
mod Sampling
mod Utilities
mod Hash
mod Kem
mod RoundTrip
mod Polynomials
mod Reference
mod Finding
mod Agreement
mod Digits
mod Division
mod Bignum
mod Openssl

-- ===== src/Base64/Digits.antt =====
-- The two tables of soml/lib/shared/base64.c undo each other.
use semantic_oml.Base.{ℕ, ◌<◌, ◌≡◌, some, true, false, arith, ◌/◌, ◌%◌, ◌^◌}
use semantic_oml.Base64.{base64, decode, digit, in_base64}

pub decode-base64 : (n : ℕ) → n < 64 → decode (base64 n) ≡ some n
unfolding decode base64
decode-base64 n h = ground arith

pub in_base64-base64 : (n : ℕ) → n < 64 → in_base64 (base64 n) ≡ true
unfolding in_base64 base64
in_base64-base64 n h = ground arith

pub decode-digit : (k x : ℕ) → decode (digit k x) ≡ some (x / 64 ^ k % 64)
unfolding digit
decode-digit k x = decode-base64 (x / 64 ^ k % 64) (omega arith)

pub in_base64-digit : (k x : ℕ) → in_base64 (digit k x) ≡ true
unfolding digit
in_base64-digit k x = in_base64-base64 (x / 64 ^ k % 64) (omega arith)

pub in_base64-pad : in_base64 b'=' ≡ false
unfolding in_base64
in_base64-pad = ground arith

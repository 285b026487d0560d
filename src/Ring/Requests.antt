-- ===== src/Ring/Requests.antt =====
-- internal/adapter/capture/afpacket.go: ParseByteSize and the checks of a capture request.
use cap_mesh.Prelude.{
  ℕ, ◌-◌, ◌*◌, ◌/◌, if◌then◌else◌, ◌%◌, ◌^◌, ◌≡◌, refl, Bool, true, false, not, ◌&&◌, ◌||◌, Result,
  ok, ◌>>◌, fail_if, ltb, ◌==◌, ℤ, below, arith,
}
use cap_mesh.Text.{Text, text, text_eq, to_upper, trim_space, is_empty}
use cap_mesh.Recording.{
  SizeError, no_match, out_of_range, too_large, division_by_zero, max_int64, digits, after_digits,
  value, fold_kelvin, multiplier, matches, parse_size,
}

-- The table of ParseByteSize has the multipliers of ParseSize but the two of the tera units.
unfoldable pub byte_multiplier : Text → ℕ
unfolding text_eq multiplier
byte_multiplier u = if text_eq u (text "TB") || text_eq u (text "TIB") then 0 else multiplier u

unfoldable pub matches_bytes : Text → Bool
unfolding digits after_digits fold_kelvin to_upper byte_multiplier
matches_bytes t =
    ltb 0 (byte_multiplier (to_upper (fold_kelvin (after_digits t)))) && not (is_empty (digits t))

unfoldable pub parse_byte_size : Text → Result SizeError ℕ
unfolding matches_bytes digits after_digits value byte_multiplier to_upper trim_space
parse_byte_size given = do
  let t = trim_space given
  fail_if (not (matches_bytes t)) no_match
  let n = value 0 (digits t)
  fail_if (ltb (2 ^ 64 - 1) n) out_of_range
  let m = byte_multiplier (to_upper (after_digits t))
  fail_if (m == 0) division_by_zero
  fail_if (ltb (max_int64 / m) n) too_large
  ok ((n * m) % 2 ^ 64)

-- The fields of a CaptureRequest that validateCaptureRequest reads.
pub record CaptureRequest : Type 0 where
  pub interface_name : Text
  pub snaplen : ℕ
  pub max_packets : ℤ
  pub max_bytes : ℤ
  pub max_delay : ℤ

pub data RequestError : Type 0 where
  no_interface bad_snaplen bad_batch_limits : RequestError

unfoldable pub validate_capture_request : CaptureRequest → Result RequestError (Unit {0})
validate_capture_request r = do
  fail_if (is_empty r.interface_name) no_interface
  fail_if (ltb r.snaplen 1 || ltb 65535 r.snaplen) bad_snaplen
  fail_if (below r.max_packets 1 || (below r.max_bytes 1 || below r.max_delay 1)) bad_batch_limits
  ok tt

byte_multiplier_same :
    (u : Text) → (byte_multiplier u == 0) ≡ false → multiplier u ≡ byte_multiplier u
unfolding byte_multiplier
byte_multiplier_same u h = ground (arith, h)

matches_bytes-matches : (t : Text) → matches_bytes t ≡ true → matches t ≡ true
unfolding matches_bytes matches
matches_bytes-matches t h =
    ground (arith, h, byte_multiplier_same (to_upper (fold_kelvin (after_digits t))))

-- The checks of both functions, by whether the pattern matches, the number and the multiplier.
abbrev sized : Bool → ℕ → ℕ → Result SizeError ℕ
sized b n m = do
  fail_if (not b) no_match
  fail_if (ltb (2 ^ 64 - 1) n) out_of_range
  fail_if (m == 0) division_by_zero
  fail_if (ltb (max_int64 / m) n) too_large
  ok ((n * m) % 2 ^ 64)

sized-same :
    (b c : Bool) (n m l k : ℕ)
    → (b ≡ true → c ≡ true)
    → ((m == 0) ≡ false → l ≡ m)
    → sized b n m ≡ ok k
    → sized c n l ≡ ok k
sized-same false c n m l k f g h = absurd (ground (arith, h))
sized-same true c n m l k f g h = let e : l ≡ m = g (ground (arith, h)) in rw (f refl, e) h

-- A size that ParseByteSize accepts, ParseSize accepts, with the same value.
parse_byte_size-parse_size :
    (given : Text) (n : ℕ) → parse_byte_size given ≡ ok n → parse_size given ≡ ok n
unfolding parse_byte_size parse_size
parse_byte_size-parse_size given n h =
    let t = trim_space given in
    sized-same (matches_bytes t) (matches t) (value 0 (digits t))
      (byte_multiplier (to_upper (after_digits t))) (multiplier (to_upper (after_digits t))) n
      (matches_bytes-matches t) (byte_multiplier_same (to_upper (after_digits t))) h

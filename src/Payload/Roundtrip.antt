-- ===== src/Payload/Roundtrip.antt =====
-- What is read back of the headers of payload.h.
use streamers.Common.{
  ℕ, ◌+◌, ◌*◌, ◌/◌, ◌%◌, ◌^◌, ◌<◌, ◌≡◌, ℤ, pos, negsuc, ◌-◌, ap, ◌∙◌, arith, if◌then◌else◌, ◌==◌,
  refl, Bool-cases, inl, inr,
}
use streamers.Payload.{
  bits, is_minus_one, frame_header_parse, frame_header_write, delta, PayloadHeader,
  payload_header_parse, payload_header_write,
}

bytes_of :
    (n : ℕ)
    → n < 2 ^ 32
    → (((0 * 2 ^ 8 + n / 2 ^ 24 % 2 ^ 8) * 2 ^ 8 + n / 2 ^ 16 % 2 ^ 8) * 2 ^ 8 + n / 2 ^ 8 % 2 ^ 8)
          * 2 ^ 8
        + n % 2 ^ 8
      ≡ n
bytes_of n h = omega arith

three_bytes_of :
    (n : ℕ)
    → ((0 * 2 ^ 8 + n / 2 ^ 16 % 2 ^ 8) * 2 ^ 8 + n / 2 ^ 8 % 2 ^ 8) * 2 ^ 8 + n % 2 ^ 8
      ≡ n % 2 ^ 24
three_bytes_of n = omega arith

-- A number of 32 bits with a sign.
abbrev pub IsInt32 : ℤ → Type 0
IsInt32 (pos n) = n < 2 ^ 31
IsInt32 (negsuc n) = n < 2 ^ 31

-- A number as its 32 bits are read without a sign: 2 ^ 32 more, if it is negative.
abbrev pub unsigned_of : ℤ → ℕ
unsigned_of (pos n) = n
unsigned_of (negsuc n) = 2 ^ 32 - 1 - n

bits-unsigned : (z : ℤ) → IsInt32 z → bits z ≡ unsigned_of z
bits-unsigned (pos n) h = omega arith
bits-unsigned (negsuc n) h = omega arith

bits_bound : (z : ℤ) → bits z < 2 ^ 32
bits_bound (pos n) = omega arith
bits_bound (negsuc n) = omega arith

-- For a size and a `dts` of 32 bits with a sign: the size is read back in its low 24 bits; a `dts` that is not
-- negative as it was, and a negative one as 2 ^ 32 more; and for `pts` the byte of its distance from `dts` is added
-- to what is read for `dts`, unless it is -1 or the byte is the mark of no `pts`: then -1 is read.
pub frame_header_parse-write :
    (size pts dts : ℤ)
    → IsInt32 size
    → IsInt32 dts
    → frame_header_parse (frame_header_write size pts dts) ≡ record {
      size = unsigned_of size % 2 ^ 24;
      pts =
          if is_minus_one pts
          then negsuc 0
          else if delta pts dts == 255
          then negsuc 0
          else pos (unsigned_of dts + delta pts dts);
      dts = pos (unsigned_of dts);
    }
unfolding frame_header_parse frame_header_write
frame_header_parse-write size pts dts h k =
    let sized = three_bytes_of (bits size) ∙ ap (λ n. n % 2 ^ 24) (bits-unsigned size h) in
    let dated = bytes_of (bits dts) (bits_bound dts) ∙ bits-unsigned dts k in
    elim (Bool-cases (is_minus_one pts)) [
      | inl unset ↦ simp (unset, sized, dated) refl
      | inr set ↦ simp (set, sized, dated) refl
    ]

-- A header whose numbers fit their 16 bits is read back as it was written.
pub payload_header_parse-write :
    (h : PayloadHeader)
    → h.width < 2 ^ 16
    → h.height < 2 ^ 16
    → h.frame_rate_n < 2 ^ 16
    → h.frame_rate_d < 2 ^ 16
    → payload_header_parse (payload_header_write h) ≡ h
unfolding payload_header_parse payload_header_write
payload_header_parse-write h w ht n d = ground arith

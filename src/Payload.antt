-- ===== src/Payload.antt =====
-- payload.h: the headers of a video payload and of a frame, in bytes. The numbers of a frame header are integers;
-- those of a payload header are not negative.
pub mod Roundtrip
mod Tests
use streamers.Common.{
  ℕ, ◌+◌, ◌-◌, ◌*◌, ◌/◌, ◌%◌, ◌^◌, Bool, false, List, [], ◌∷◌, if◌then◌else◌, ◌==◌, get_or, ℤ, pos,
  negsuc,
}

-- The 32 bits of an `int32_t` or `int`.
abbrev pub bits : ℤ → ℕ
bits (pos n) = n % 2 ^ 32
bits (negsuc n) = 2 ^ 32 - 1 - n % 2 ^ 32

abbrev pub is_minus_one : ℤ → Bool
is_minus_one (pos n) = false
is_minus_one (negsuc n) = n == 0

-- What `frame_header_parse` sets: `pts` and `dts` are 64-bit numbers.
pub record FrameHeader : Type 0 where
  pub size : ℕ
  pub pts : ℤ
  pub dts : ℤ

-- A byte after the ones that were read: `x << 8`, and the byte in the low bits.
abbrev shift_in : ℕ → ℕ → ℕ
shift_in x b = x * 2 ^ 8 + b

-- `data[i]`, of the bytes of `data`
abbrev byte : List ℕ → ℕ → ℕ
byte bytes i = get_or bytes i 0

pub frame_header_parse : List ℕ → FrameHeader
frame_header_parse bytes =
    let dts =
      shift_in (shift_in (shift_in (shift_in 0 (byte bytes 3)) (byte bytes 4)) (byte bytes 5))
        (byte bytes 6) in
    record {
      size = shift_in (shift_in (shift_in 0 (byte bytes 0)) (byte bytes 1)) (byte bytes 2);
      pts = if byte bytes 7 == 255 then negsuc 0 else pos (dts + byte bytes 7);
      dts = pos dts;
    }

-- `(pts - dts) & 0xFF`
abbrev pub delta : ℤ → ℤ → ℕ
delta pts dts = (bits pts + 2 ^ 32 - bits dts) % 2 ^ 8

pub frame_header_write : (size pts dts : ℤ) → List ℕ
frame_header_write size pts dts =
    bits size / 2 ^ 16 % 2 ^ 8
    ∷ bits size / 2 ^ 8 % 2 ^ 8
    ∷ bits size % 2 ^ 8
    ∷ bits dts / 2 ^ 24 % 2 ^ 8
    ∷ bits dts / 2 ^ 16 % 2 ^ 8
    ∷ bits dts / 2 ^ 8 % 2 ^ 8
    ∷ bits dts % 2 ^ 8
    ∷ (if is_minus_one pts then 255 else delta pts dts)
    ∷ []

pub record PayloadHeader : Type 0 where
  pub codec : ℕ
  pub width : ℕ
  pub height : ℕ
  pub frame_rate_n : ℕ
  pub frame_rate_d : ℕ

pub payload_header_parse : List ℕ → PayloadHeader
payload_header_parse bytes = record {
  codec = byte bytes 0;
  width = shift_in (byte bytes 1) (byte bytes 2);
  height = shift_in (byte bytes 3) (byte bytes 4);
  frame_rate_n = shift_in (byte bytes 5) (byte bytes 6);
  frame_rate_d = shift_in (byte bytes 7) (byte bytes 8);
}

-- `codec` is a byte.
pub payload_header_write : PayloadHeader → List ℕ
payload_header_write h =
    h.codec
    ∷ h.width / 2 ^ 8 % 2 ^ 8
    ∷ h.width % 2 ^ 8
    ∷ h.height / 2 ^ 8 % 2 ^ 8
    ∷ h.height % 2 ^ 8
    ∷ h.frame_rate_n / 2 ^ 8 % 2 ^ 8
    ∷ h.frame_rate_n % 2 ^ 8
    ∷ h.frame_rate_d / 2 ^ 8 % 2 ^ 8
    ∷ h.frame_rate_d % 2 ^ 8
    ∷ []

-- ===== src/FrameCodec.antt =====
-- include/protocol/FrameCodec.h and src/protocol/FrameCodec.cpp: the length-prefixed frames in
-- which an agent's messages travel. `htonl` followed by `memcpy` writes the four bytes from the
-- most significant on, whatever the host's byte order, and `memcpy` with `ntohl` reads them back.
pub mod RoundTrip
pub mod Stream
mod Tests
use lmonitor.Base.{
  ℕ, ◌+◌, ◌*◌, ◌/◌, ◌%◌, ◌^◌, List, [], ◌∷◌, ◌++◌, Option, none, some, Result, ok, err, ltb,
  if◌then◌else◌, length, take, drop,
}
use lmonitor.Base.Text.{Bytes}

abbrev pub header_size : ℕ
header_size = 4

abbrev pub max_frame_size : ℕ
max_frame_size = 1024 * 1024

-- std::length_error of `encode`, std::runtime_error of `tryDecode`
pub data FrameError : Type 0 where
  payload_too_long frame_too_large : FrameError

-- `static_cast<uint32_t>`, `htonl`, and the copy of the header
unfoldable pub write_header : ℕ → Bytes
write_header size =
    let n = size % 2 ^ 32 in n / 2 ^ 24 ∷ n / 2 ^ 16 % 256 ∷ n / 2 ^ 8 % 256 ∷ n % 256 ∷ []

-- the copy of the header, and `ntohl`
pub read_header : Bytes → ℕ
read_header (a ∷ b ∷ c ∷ d ∷ rest) = a * 2 ^ 24 + b * 2 ^ 16 + c * 2 ^ 8 + d
read_header _ = 0

unfoldable pub encode : Bytes → Result FrameError Bytes
unfolding write_header
encode payload =
    if ltb max_frame_size (length payload)
    then err payload_too_long
    else ok (write_header (length payload) ++ payload)

-- `none` is the answer false, with both arguments left as they were. `some` is the answer true,
-- with the payload and with what is left of the buffer.
unfoldable pub try_decode : Bytes → Result FrameError (Option (Bytes × Bytes))
unfolding read_header
try_decode buffer =
    if ltb (length buffer) header_size
    then ok none
    else (let payload_length = read_header buffer in
        if ltb max_frame_size payload_length
        then err frame_too_large
        else if ltb (length buffer) (header_size + payload_length)
        then ok none
        else ok (
            some (
              take payload_length (drop header_size buffer),
              drop (header_size + payload_length) buffer,
            )))

-- ===== src/FrameCodec/Tests.antt =====
-- Frames of short payloads, and the theorems about them at these inputs.
use lmonitor.Base.{[], ◌∷◌, ◌++◌, ◌≡◌, refl, none, some, ok, err}
use lmonitor.Base.Text.{Bytes, codes}
use lmonitor.FrameCodec.{frame_too_large, encode, try_decode}
use lmonitor.FrameCodec.RoundTrip.{try_decode-encode}

abbrev hello : Bytes
hello = codes "hello"

abbrev hello_frame : Bytes
hello_frame = 0 ∷ 0 ∷ 0 ∷ 5 ∷ codes "hello"

encode-hello : encode hello ≡ ok hello_frame
unfolding encode
encode-hello = refl

decode_twice : try_decode (hello_frame ++ hello_frame) ≡ ok (some (hello, hello_frame))
unfolding try_decode
decode_twice = refl

decode_part : try_decode (0 ∷ 0 ∷ 0 ∷ 5 ∷ codes "hel") ≡ ok none
unfolding try_decode
decode_part = refl

decode_large : try_decode (0 ∷ 16 ∷ 0 ∷ 1 ∷ []) ≡ err frame_too_large
unfolding try_decode
decode_large = refl

try_decode-encode_example : try_decode (hello_frame ++ codes "xy") ≡ ok (some (hello, codes "xy"))
try_decode-encode_example = try_decode-encode hello (codes "xy") encode-hello

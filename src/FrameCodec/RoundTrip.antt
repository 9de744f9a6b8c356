-- ===== src/FrameCodec/RoundTrip.antt =====
-- Single calls of `encode` and `tryDecode`, src/protocol/FrameCodec.cpp.
use lmonitor.Base.{
  ℕ, ◌+◌, ◌^◌, ◌≤◌, ◌<◌, ◌≡◌, refl, sym, ap, ap₂, subst, drop-drop, ok-injective, ◌∙◌, ◌⊎◌, inl,
  inr, [], ◌∷◌, ◌++◌, Option, none, some, Result, ok, err, arith, length, take, drop, length-append,
  length-take, length-drop, take-append, drop-append, take-append_self, drop-append_self, drop-add,
  take-append-drop, append_assoc, All,
}
use lmonitor.Base.Text.{Bytes, IsByte}
use lmonitor.FrameCodec.{
  header_size, max_frame_size, FrameError, payload_too_long, frame_too_large, write_header,
  read_header, encode, try_decode,
}

-- The bytes of a frame that carries the payload.
abbrev pub frame : Bytes → Bytes
frame payload = write_header (length payload) ++ payload

pub read-write_header :
    (n : ℕ) (rest : Bytes) → n < 2 ^ 32 → read_header (write_header n ++ rest) ≡ n
unfolding read_header write_header
read-write_header n rest h = omega arith

pub length-write_header : (n : ℕ) → length (write_header n) ≡ 4
unfolding write_header
length-write_header n = refl

-- `encode` refuses exactly the payloads above one MiB, and otherwise writes the header and the
-- payload.
pub encode_lem :
    (payload : Bytes)
    → ((max_frame_size < length payload) × (encode payload ≡ err payload_too_long))
      ⊎ ((length payload ≤ max_frame_size) × (encode payload ≡ ok (frame payload)))
unfolding encode
encode_lem payload = ground arith

-- A buffer with less than a header, or with less than the frame that its header announces.
abbrev pub IsPartial : Bytes → Type 0
IsPartial b =
    (length b < header_size)
    ⊎ ((read_header b ≤ max_frame_size) × (length b < header_size + read_header b))

-- The header and the whole frame are there.
abbrev pub IsComplete : Bytes → Type 0
IsComplete b = (read_header b ≤ max_frame_size) × (header_size + read_header b ≤ length b)

-- The header is there, and announces too much.
abbrev pub IsOversize : Bytes → Type 0
IsOversize b = (header_size ≤ length b) × (max_frame_size < read_header b)

-- What `try_decode` returns of a complete buffer.
abbrev pub split_frame : Bytes → Bytes × Bytes
split_frame b = (take (read_header b) (drop header_size b), drop (header_size + read_header b) b)

-- Every buffer is waited on, refused or taken apart, by its length and the length that its header
-- announces.
pub try_decode_cases :
    (b : Bytes)
    → (IsPartial b × (try_decode b ≡ ok none))
      ⊎ (IsOversize b × (try_decode b ≡ err frame_too_large))
      ⊎ (IsComplete b × (try_decode b ≡ ok (some (split_frame b))))
unfolding try_decode
try_decode_cases b = ground arith

pub decoded_eq :
    {p q : Bytes × Bytes}
    → ◌≡◌ {A = Result FrameError (Option (Bytes × Bytes))} (ok (some p)) (ok (some q))
    → p ≡ q
decoded_eq e = cc

pub try_decode_complete : (b : Bytes) → IsComplete b → try_decode b ≡ ok (some (split_frame b))
unfolding try_decode
try_decode_complete b h = ground arith

pub try_decode_oversize : (b : Bytes) → IsOversize b → try_decode b ≡ err frame_too_large
unfolding try_decode
try_decode_oversize b h = ground arith

pub try_decode_partial : (b : Bytes) → IsPartial b → try_decode b ≡ ok none
unfolding try_decode
try_decode_partial b h = ground arith

drop_header :
    (n k : ℕ) (rest : Bytes) → drop (header_size + k) (write_header n ++ rest) ≡ drop k rest
unfolding write_header
drop_header n k rest = drop-add (write_header n) k rest

take_payload :
    (n : ℕ) (payload rest : Bytes)
    → take (length payload) (drop header_size (write_header n ++ (payload ++ rest))) ≡ payload
take_payload n payload rest = rw (drop_header n 0 (payload ++ rest)) (take-append_self payload rest)

drop_frame :
    (n : ℕ) (payload rest : Bytes)
    → drop (header_size + length payload) (write_header n ++ (payload ++ rest)) ≡ rest
drop_frame n payload rest =
    drop_header n (length payload) (payload ++ rest) ∙ drop-append_self payload rest

length-frame : (payload : Bytes) → length (frame payload) ≡ header_size + length payload
length-frame payload = omega (
  arith,
  length-append (write_header (length payload)) payload,
  length-write_header (length payload),
)

read_header-frame :
    (payload rest : Bytes)
    → length payload ≤ max_frame_size
    → read_header (frame payload ++ rest) ≡ length payload
read_header-frame payload rest h =
    rw append_assoc (read-write_header (length payload) (payload ++ rest) (omega arith))

split_frame-frame :
    (payload rest : Bytes)
    → length payload ≤ max_frame_size
    → split_frame (frame payload ++ rest) ≡ (payload, rest)
split_frame-frame payload rest h =
    rw (read_header-frame payload rest h, append_assoc)
      (ap₂ (λ a b. (a, b)) (take_payload (length payload) payload rest)
        (drop_frame (length payload) payload rest))

-- The frame of a payload of at most one MiB is decoded to the payload, and what follows it in
-- the buffer is left.
pub try_decode-frame :
    (payload rest : Bytes)
    → length payload ≤ max_frame_size
    → try_decode (frame payload ++ rest) ≡ ok (some (payload, rest))
try_decode-frame payload rest h =
    try_decode_complete (frame payload ++ rest) (
      omega (
        arith,
        read_header-frame payload rest h,
        length-append (frame payload) rest,
        length-frame payload,
      ))
    ∙ ap (λ p. ok (some p)) (split_frame-frame payload rest h)

-- What `encode` produces is decoded to the payload, with the following bytes left in the buffer.
pub try_decode-encode :
    (payload rest : Bytes) {f : Bytes}
    → encode payload ≡ ok f
    → try_decode (f ++ rest) ≡ ok (some (payload, rest))
try_decode-encode payload rest e = elim (encode_lem payload) [
  | inl (_, refused) ↦ cc
  | inr (fits, sent) ↦ rw (← ok-injective (sym sent ∙ e)) (try_decode-frame payload rest fits)
]

-- The header of a buffer does not change when more bytes arrive behind it.
pub read_header-append :
    (b more : Bytes) → header_size ≤ length b → read_header (b ++ more) ≡ read_header b
unfolding read_header
read_header-append (a ∷ b ∷ c ∷ d ∷ rest) more h = refl
read_header-append [] more h = absurd (omega arith)
read_header-append (a ∷ []) more h = absurd (omega arith)
read_header-append (a ∷ b ∷ []) more h = absurd (omega arith)
read_header-append (a ∷ b ∷ c ∷ []) more h = absurd (omega arith)

split_frame-append :
    (b more : Bytes)
    → header_size + read_header b ≤ length b
    → split_frame (b ++ more) ≡ ((split_frame b).0, (split_frame b).1 ++ more)
split_frame-append b more h = rw (
  read_header-append b more (omega arith),
  drop-append header_size b more (omega arith),
  take-append (read_header b) (drop header_size b) more (omega (arith, length-drop header_size b)),
  drop-append (header_size + read_header b) b more h,
)

-- A decision that was made is not changed by bytes that arrive later.
pub try_decode-append :
    (b more : Bytes) {m r : Bytes}
    → try_decode b ≡ ok (some (m, r))
    → try_decode (b ++ more) ≡ ok (some (m, r ++ more))
try_decode-append b more {m} {r} e = elim (try_decode_cases b) [
  | inl (_, waits) ↦ cc
  | inr (inl (_, refused)) ↦ cc
  | inr (inr (whole, taken)) ↦
      let parts = decoded_eq (sym taken ∙ e) in
      try_decode_complete (b ++ more)
        (omega (arith, length-append b more, read_header-append b more))
      ∙ ap (λ p. ok (some p)) (split_frame-append b more whole.1)
      ∙ ap (λ p. ok (some (p.0, p.1 ++ more))) parts
]

pub try_decode-append_err :
    (b more : Bytes) {x : FrameError} → try_decode b ≡ err x → try_decode (b ++ more) ≡ err x
try_decode-append_err b more {x} e = elim (try_decode_cases b) [
  | inl (_, waits) ↦ cc
  | inr (inl (big, refused)) ↦
      try_decode_oversize (b ++ more)
        (omega (arith, length-append b more, read_header-append b more))
      ∙ sym refused
      ∙ e
  | inr (inr (_, taken)) ↦ cc
]

write-read_header :
    (b : Bytes)
    → header_size ≤ length b
    → All IsByte b
    → write_header (read_header b) ≡ take header_size b
unfolding read_header write_header
write-read_header (a ∷ b ∷ c ∷ d ∷ rest) h (ha, (hb, (hc, (hd, _)))) = ground arith
write-read_header [] h _ = absurd (omega arith)
write-read_header (a ∷ []) h _ = absurd (omega arith)
write-read_header (a ∷ b ∷ []) h _ = absurd (omega arith)
write-read_header (a ∷ b ∷ c ∷ []) h _ = absurd (omega arith)

length-split_frame :
    (b : Bytes) → header_size + read_header b ≤ length b → length (split_frame b).0 ≡ read_header b
length-split_frame b h =
    omega (arith, length-take (read_header b) (drop header_size b), length-drop header_size b)

-- The parts of a complete buffer make the buffer again.
frame-split_frame :
    (b : Bytes)
    → header_size + read_header b ≤ length b
    → All IsByte b
    → frame (split_frame b).0 ++ (split_frame b).1 ≡ b
frame-split_frame b h bytes =
    rw
      (
        length-split_frame b h,
        write-read_header b (omega arith) bytes,
        append_assoc,
        ← drop-drop header_size (read_header b) b,
        take-append-drop,
      )
      (take-append-drop header_size b)

-- Only a frame is decoded: the buffer is the frame of the payload, followed by what is left.
pub try_decode_sound :
    (b : Bytes) {m r : Bytes}
    → All IsByte b
    → try_decode b ≡ ok (some (m, r))
    → (encode m ≡ ok (frame m)) × (b ≡ frame m ++ r)
try_decode_sound b bytes e = elim (try_decode_cases b) [
  | inl (_, waits) ↦ cc
  | inr (inl (_, refused)) ↦ cc
  | inr (inr (whole, taken)) ↦
      let parts = decoded_eq (sym taken ∙ e) in
      subst (λ p. (encode p.0 ≡ ok (frame p.0)) × (b ≡ frame p.0 ++ p.1)) parts
        (
          elim (encode_lem (split_frame b).0) [
            | inl (big, _) ↦ absurd (omega (arith, length-split_frame b whole.1))
            | inr (_, sent) ↦ sent
          ],
          sym (frame-split_frame b whole.1 bytes),
        )
]

-- ===== src/FrameCodec/Stream.antt =====
-- A byte stream that carries many frames of src/protocol/FrameCodec.cpp, and its parts.
use lmonitor.Base.{
  ◌+◌, ◌≤◌, ◌≡◌, refl, sym, ap, subst, ◌∙◌, ◌⊎◌, inl, inr, List, [], ◌∷◌, ◌++◌, none, some, ok, err,
  arith, length, All, append_assoc, length-drop,
}
use lmonitor.Base.Text.{Bytes}
use lmonitor.FrameCodec.{read_header, header_size, max_frame_size, FrameError, try_decode}
use lmonitor.FrameCodec.RoundTrip.{
  decoded_eq, frame, try_decode_cases, try_decode-frame, try_decode-append, try_decode-append_err,
}

-- `b` holds the messages `ms`, in order, and behind them `r`, which is not yet a whole frame.
pub data Decodes : Bytes → List Bytes → Bytes → Type 0 where
  stop : {b : Bytes} → try_decode b ≡ ok none → Decodes b [] b
  more :
      {b : Bytes} {m : Bytes} {rest : Bytes} {ms : List Bytes} {r : Bytes}
      → try_decode b ≡ ok (some (m, rest))
      → Decodes rest ms r
      → Decodes b (m ∷ ms) r

-- What an agent writes for these messages.
abbrev pub frames : List Bytes → Bytes
frames [] = []
frames (m ∷ ms) = frame m ++ frames ms

-- The frames of messages that fit, with part of a frame behind them, hold these messages.
pub frames-Decodes :
    (ms : List Bytes) (r : Bytes)
    → All (λ m. length m ≤ max_frame_size) ms
    → try_decode r ≡ ok none
    → Decodes (frames ms ++ r) ms r
frames-Decodes [] r h e = stop e
frames-Decodes (m ∷ ms) r (fits, others) e =
    more (rw append_assoc (try_decode-frame m (frames ms ++ r) fits)) (frames-Decodes ms r others e)

-- Messages that are there are found again when more bytes arrive.
pub Decodes-append :
    {b : Bytes} {ms : List Bytes} {r : Bytes} (x : Bytes) {ns : List Bytes} {s : Bytes}
    → Decodes b ms r
    → Decodes (r ++ x) ns s
    → Decodes (b ++ x) (ms ++ ns) s
Decodes-append x (stop e) d = d
Decodes-append x (more {b} {m} {rest} e t) d = more (try_decode-append b x e) (Decodes-append x t d)

-- What one call says of a buffer.
pub decision_cases :
    (b : Bytes)
    → (try_decode b ≡ ok none)
      ⊎ ((x : FrameError) × (try_decode b ≡ err x))
      ⊎ ((m : Bytes) × (rest : Bytes) × (try_decode b ≡ ok (some (m, rest))))
decision_cases b = elim (try_decode_cases b) [
  | inl (_, e) ↦ inl e
  | inr (inl (_, e)) ↦ inr (inl (_, e))
  | inr (inr (_, e)) ↦ inr (inr (_, _, e))
]

-- The first part of a stream holds a first part of the messages, and what it leaves holds the
-- others when the second part arrives.
pub record Split (b x : Bytes) (ms : List Bytes) (s : Bytes) : Type 0 where
  pub early : List Bytes
  pub late : List Bytes
  pub left : Bytes
  pub found : Decodes b early left
  pub found_later : Decodes (left ++ x) late s
  pub all : ms ≡ early ++ late

Split-none :
    {b x : Bytes} {ms : List Bytes} {s : Bytes}
    → try_decode b ≡ ok none
    → Decodes (b ++ x) ms s
    → Split b x ms s
Split-none {b} {x} {ms} e d = record {
  early = [];
  late = ms;
  left = b;
  found = stop e;
  found_later = d;
  all = refl;
}

Split-more :
    {b x : Bytes} (m : Bytes) {rest : Bytes} {ms : List Bytes} {s : Bytes}
    → try_decode b ≡ ok (some (m, rest))
    → Split rest x ms s
    → Split b x (m ∷ ms) s
Split-more m e t = record {
  early = m ∷ t.early;
  late = t.late;
  left = t.left;
  found = more e t.found;
  found_later = t.found_later;
  all = ap (◌∷◌ m) t.all;
}

pub Decodes-Split :
    (b x : Bytes) {whole : Bytes} {ms : List Bytes} {s : Bytes}
    → whole ≡ b ++ x
    → Decodes whole ms s
    → Split b x ms s
Decodes-Split b x w (stop {b = whole} e) = elim (decision_cases b) [
  | inl waits ↦ Split-none waits (subst (λ t. Decodes t [] whole) w (stop e))
  | inr (inl (_, refused)) ↦ absurd (cc (try_decode-append_err b x refused))
  | inr (inr (m, rest, taken)) ↦ absurd (cc (try_decode-append b x taken))
]
Decodes-Split b x {s = s} w (more {b = whole} {m} {rest} {ms} e t) = elim (decision_cases b) [
  | inl waits ↦ Split-none waits (subst (λ t. Decodes t (m ∷ ms) s) w (more e t))
  | inr (inl (_, refused)) ↦ absurd (cc (try_decode-append_err b x refused))
  | inr (inr (m', rest', taken)) ↦
      let same = decoded_eq (sym e ∙ ap try_decode w ∙ try_decode-append b x taken) in
      subst (λ k. Split b x (k ∷ ms) s) (ap (λ p. p.0) (sym same))
        (Split-more m' taken (Decodes-Split rest' x (ap (λ p. p.1) same) t))
]

-- A decoded frame takes at least its header off the buffer.
pub length-try_decode :
    (b : Bytes) {m r : Bytes} → try_decode b ≡ ok (some (m, r)) → length r + header_size ≤ length b
length-try_decode b e = elim (try_decode_cases b) [
  | inl (_, waits) ↦ absurd (cc)
  | inr (inl (_, refused)) ↦ absurd (cc)
  | inr (inr (whole, taken)) ↦
      let parts = decoded_eq (sym taken ∙ e) in
      omega
        (arith, ap (λ p. length p.1) parts, length-drop (header_size + read_header b) b, whole.1)
]

-- What is left holds no whole frame.
pub Decodes_left :
    {b : Bytes} {ms : List Bytes} {r : Bytes} → Decodes b ms r → try_decode r ≡ ok none
Decodes_left (stop e) = e
Decodes_left (more e t) = Decodes_left t

pub Decodes_partial :
    {b : Bytes} {ms : List Bytes} {r : Bytes}
    → try_decode b ≡ ok none
    → Decodes b ms r
    → (ms ≡ []) × (r ≡ b)
Decodes_partial w (stop e) = (refl, refl)
Decodes_partial w (more e t) = absurd (cc)

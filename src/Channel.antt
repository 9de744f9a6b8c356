-- ===== src/Channel.antt =====
-- include/reactor/Channel.h and src/reactor/Channel.cpp: a file descriptor with the callbacks for
-- its events. A callback may destroy the object that owns the channel, so a run says whether it
-- went on to read an object that is gone.
use lmonitor.Base.{Bool, ◌||◌, Option, none, some, List, [], ◌++◌, if◌then◌else◌}

-- A call on an object `S` with effects `E`: it returns, or it reads storage that is freed.
pub data Run {ℓ κ} (E : Type ℓ) (S : Type κ) : Type (ℓ ⊔ κ) where
  returned : S → List E → Run E S
  use_after_free : List E → Run E S

module _ {ℓ κ} {E : Type ℓ} {S : Type κ} where
  abbrev pub after : List E → Run E S → Run E S
  after es (returned s fs) = returned s (es ++ fs)
  after es (use_after_free fs) = use_after_free (es ++ fs)

  infixl 5 ◌>>=◌
  abbrev pub ◌>>=◌ : Run E S → (S → Run E S) → Run E S
  returned s es >>= f = after es (f s)
  use_after_free es >>= f = use_after_free es

-- The bits of an epoll event mask that `handleEvent` tests.
pub record Events : Type 0 where
  pub epollerr : Bool
  pub epollin : Bool
  pub epollhup : Bool
  pub epollrdhup : Bool

-- The callbacks act on the state `S` of their owner.
pub record Channel {ℓ κ} (E : Type ℓ) (S : Type κ) : Type (ℓ ⊔ κ) where
  pub error_callback : Option (S → Run E S)
  pub read_callback : Option (S → Run E S)
  pub close_callback : Option (S → Run E S)

module _ {ℓ κ} {E : Type ℓ} {S : Type κ} where
  -- A channel without callbacks, and the setters.
  abbrev pub no_callbacks : Channel E S
  no_callbacks = record { error_callback = none; read_callback = none; close_callback = none }

  abbrev pub set_read_callback : (S → Run E S) → Channel E S → Channel E S
  set_read_callback f ch = record ch { read_callback = some f }

  abbrev pub set_close_callback : (S → Run E S) → Channel E S → Channel E S
  set_close_callback f ch = record ch { close_callback = some f }

  abbrev pub set_error_callback : (S → Run E S) → Channel E S → Channel E S
  set_error_callback f ch = record ch { error_callback = some f }

  -- `if (callback) callback();`, which reads the channel first
  unfoldable pub call : (S → Bool) → Option (S → Run E S) → S → Run E S
  call alive callback s =
      if alive s then elim callback [ none ↦ returned s [] | some f ↦ f s ] else use_after_free []

  unfoldable pub when : Bool → (S → Run E S) → S → Run E S
  when b f s = if b then f s else returned s []

  unfoldable pub handle_event : (S → Bool) → Channel E S → Events → S → Run E S
  unfolding when call
  handle_event alive ch ev s = do
    s₁ ← when ev.epollerr (call alive ch.error_callback) s
    s₂ ← when ev.epollin (call alive ch.read_callback) s₁
    when (ev.epollhup || ev.epollrdhup) (call alive ch.close_callback) s₂

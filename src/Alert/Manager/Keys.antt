-- ===== src/Alert/Manager/Keys.antt =====
-- The keys of the alert table, `AlertManager::makeKey` of src/alert/AlertManager.cpp.
use mathlib.Core.List.{append_cancel_right}
use lmonitor.Base.{
  ℕ, ◌≡◌, ◌≢◌, Bool-cases, refl, sym, ap, ◌∙◌, ◌⊎◌, inl, inr, false, [], ◌∷◌, ◌++◌, arith,
}
use lmonitor.Base.Text.{Bytes, bytes_eq, bytes_eq_iff}
use lmonitor.Alert.Evaluator.{cpu_metric, memory_metric, disk_metric}
use lmonitor.Alert.Manager.{make_key}

-- The metrics that alerts are raised for.
abbrev pub IsMetric : Bytes → Type 0
IsMetric m = (m ≡ cpu_metric) ⊎ (m ≡ memory_metric) ⊎ (m ≡ disk_metric)

last : ℕ → Bytes → ℕ
last d [] = d
last d (x ∷ s) = last x s

last-append : (d : ℕ) (s : Bytes) (x : ℕ) (t : Bytes) → last d (s ++ x ∷ t) ≡ last x t
unfolding last
last-append d [] x t = refl
last-append d (y ∷ s) x t = last-append y s x t

last-make_key : (h m : Bytes) → last 0 (make_key h m) ≡ last b'_' m
unfolding make_key
last-make_key h m = last-append 0 h b'_' m

last_eq : (h h' m m' : Bytes) → make_key h m ≡ make_key h' m' → last b'_' m ≡ last b'_' m'
last_eq h h' m m' e = sym (last-make_key h m) ∙ ap (last 0) e ∙ last-make_key h' m'

same_metric :
    (h h' m m' : Bytes) → IsMetric m → IsMetric m' → make_key h m ≡ make_key h' m' → m ≡ m'
unfolding last
same_metric h h' m m' p q e = ground (arith, last_eq h h' m m' e)

-- Two alerts for the CPU, the memory or the disk have one key only if they are for the same host and
-- the same metric, whatever the host names are.
pub make_key_injective :
    (h h' m m' : Bytes)
    → IsMetric m
    → IsMetric m'
    → make_key h m ≡ make_key h' m'
    → (h ≡ h') × (m ≡ m')
unfolding make_key
make_key_injective h h' m m' p q e =
    let same = same_metric h h' m m' p q e in
    (append_cancel_right h h' (b'_' ∷ m) (e ∙ ap (λ n. h' ++ b'_' ∷ n) (sym same)), same)

pub key_ne :
    (h m m' : Bytes)
    → IsMetric m
    → IsMetric m'
    → m ≢ m'
    → bytes_eq (make_key h m) (make_key h m') ≡ false
key_ne h m m' p q ne = elim (Bool-cases (bytes_eq (make_key h m) (make_key h m'))) [
  | inl e ↦ absurd (ne (make_key_injective h h m m' p q ((bytes_eq_iff _ _).0 e)).1)
  | inr e ↦ e
]

pub key_ne_host :
    (h h' m m' : Bytes)
    → IsMetric m
    → IsMetric m'
    → h ≢ h'
    → bytes_eq (make_key h' m') (make_key h m) ≡ false
key_ne_host h h' m m' p q ne = elim (Bool-cases (bytes_eq (make_key h' m') (make_key h m))) [
  | inl e ↦ absurd (ne (sym (make_key_injective h' h m' m q p ((bytes_eq_iff _ _).0 e)).0))
  | inr e ↦ e
]

-- ===== src/Collector/Process/Example.antt =====
-- Data of the tests: two samples of /proc, and a sort that keeps what std::sort promises.
use Prim.{tt}
use lmonitor.Base.{
  ℕ, ◌≡◌, refl, false, List, [], ◌∷◌, All, if◌then◌else◌, Bool-cases, inl, inr, arith,
}
use mathlib.Core.List.{Permᴰ}
use mathlib.Core.List.Permᴰ
use lmonitor.Base.Text.{codes}
use lmonitor.Base.Number.{pos}
use lmonitor.Sample.{whole}
use lmonitor.Collector.Process.{ProcessSnapshot, ProcessInfo, more_cpu}
use lmonitor.Collector.Process.Usage.{IsUnique, IsDescending, SortsDescending}

unfoldable pub place : ProcessInfo ℕ → List (ProcessInfo ℕ) → List (ProcessInfo ℕ)
place x [] = x ∷ []
place x (y ∷ l) = let later = place x l in if more_cpu whole y x then y ∷ later else x ∷ y ∷ l

unfoldable pub place_all : List (ProcessInfo ℕ) → List (ProcessInfo ℕ)
unfolding place
place_all [] = []
place_all (x ∷ l) = place x (place_all l)

place-perm : (x : ProcessInfo ℕ) (l : List (ProcessInfo ℕ)) → Permᴰ (place x l) (x ∷ l)
unfolding place
place-perm x [] = Permᴰ.refl _
place-perm x (y ∷ l) = elim (Bool-cases (more_cpu whole y x)) [
  | inl more ↦ rw more (Permᴰ.trans (Permᴰ.cons refl (place-perm x l)) (Permᴰ.swap refl refl))
  | inr less ↦ rw less (Permᴰ.refl _)
]

abbrev Below : ProcessInfo ℕ → List (ProcessInfo ℕ) → Type 0
Below x l = All (λ b. more_cpu whole b x ≡ false) l

Below-trans :
    (x y : ProcessInfo ℕ) (l : List (ProcessInfo ℕ))
    → more_cpu whole y x ≡ false
    → Below y l
    → Below x l
Below-trans x y [] h b = tt
Below-trans x y (z ∷ l) h b = (ground (arith, b.0), Below-trans x y l h b.1)

place-Below :
    (x y : ProcessInfo ℕ) (l : List (ProcessInfo ℕ))
    → more_cpu whole x y ≡ false
    → Below y l
    → Below y (place x l)
unfolding place
place-Below x y [] h b = (h, tt)
place-Below x y (z ∷ l) h b = elim (Bool-cases (more_cpu whole z x)) [
  | inl more ↦ rw more (b.0, place-Below x y l h b.1)
  | inr less ↦ rw less (h, b)
]

place-IsDescending :
    (x : ProcessInfo ℕ) (l : List (ProcessInfo ℕ))
    → IsDescending whole l
    → IsDescending whole (place x l)
unfolding place
place-IsDescending x [] h = (tt, tt)
place-IsDescending x (y ∷ l) h = elim (Bool-cases (more_cpu whole y x)) [
  | inl more ↦ rw more (place-Below x y l (ground (arith, more)) h.0, place-IsDescending x l h.1)
  | inr less ↦ rw less ((less, Below-trans x y l less h.0), h)
]

pub place_all-SortsDescending : SortsDescending whole place_all
unfolding place_all
place_all-SortsDescending [] = (Permᴰ.nil, tt)
place_all-SortsDescending (x ∷ l) =
    let (p, d) = place_all-SortsDescending l in
    (
      Permᴰ.trans (place-perm x (place_all l)) (Permᴰ.cons refl p),
      place-IsDescending x (place_all l) d,
    )

abbrev pub process : ℕ → ℕ → ℕ → ProcessSnapshot
process pid time start = record {
  pid = pos pid;
  name = codes "sh";
  user_time = time;
  system_time = 1;
  start_time = start;
  resident_memory_kb = 10;
}

-- Process 2 ends, and another one gets its pid.
abbrev pub before : List ProcessSnapshot
before = process 1 10 5 ∷ process 2 10 6 ∷ process 3 10 7 ∷ []

abbrev pub now : List ProcessSnapshot
now = process 3 30 7 ∷ process 2 2 9 ∷ process 1 60 5 ∷ process 4 3 9 ∷ []

pub before-IsUnique : IsUnique before
before-IsUnique = ground arith

-- ===== src/Collector/Process/Usage.antt =====
-- `calculateUsage`: which processes it reports, and in which order.
use lmonitor.Base.{
  ℕ, ◌≤◌, ◌<◌, ◌≡◌, ◌≢◌, refl, subst, ◌∙◌, ◌⊎◌, inl, inr, Bool, true, false, List, [], ◌∷◌, Option,
  none, some, All, if◌then◌else◌, ◌==◌, ◌||◌, Bool-cases, arith,
}
use mathlib.Core.List.{Memᴰ, Permᴰ}
use mathlib.Core.List.Memᴰ
use mathlib.Core.List.Permᴰ
use lmonitor.Base.Rearranged.{member}
use lmonitor.Base.Map.{Map, lookup, insert, lookup-insert, lookup-insert_self}
use lmonitor.Base.Number.{ℤ}
use lmonitor.Base.Signed.{int_key, int_eq, int_eq_iff}
use lmonitor.Float.{Float}
use lmonitor.Collector.Process.{
  ProcessSnapshot, ProcessInfo, total_cpu_time, by_pid, is_same, info_of, usage_of, usages,
  more_cpu, calculate_usage,
}

-- No two snapshots have the same pid.
abbrev pub IsUnique : List ProcessSnapshot → Type 0
IsUnique [] = Unit
IsUnique (p ∷ ps) = All (λ q. p.pid ≢ q.pid) ps × IsUnique ps

-- Both are of one process, which has not run backwards.
abbrev pub IsContinued : ProcessSnapshot → ProcessSnapshot → Type 0
IsContinued previous current =
    (previous.pid ≡ current.pid)
    × (previous.start_time ≡ current.start_time)
    × (total_cpu_time previous ≤ total_cpu_time current)

by_pid_old :
    (k : ℤ) (ps : List ProcessSnapshot) (m : Map ℤ ProcessSnapshot)
    → All (λ q. k ≢ q.pid) ps
    → lookup k (by_pid ps m) ≡ lookup k m
unfolding by_pid
by_pid_old k [] m h = refl
by_pid_old k (p ∷ ps) m h =
    by_pid_old k ps (insert p.pid p m) h.1
    ∙ ground (arith, lookup-insert p.pid k p m, int_eq_iff p.pid k, h.0)

-- The table has each previous snapshot at its pid.
by_pid_found :
    (p : ProcessSnapshot) (ps : List ProcessSnapshot) (m : Map ℤ ProcessSnapshot)
    → IsUnique ps
    → Memᴰ p ps
    → lookup p.pid (by_pid ps m) ≡ some p
unfolding by_pid
by_pid_found p [] m u h = absurd (Memᴰ.not-nil h)
by_pid_found p (q ∷ ps) m u (Memᴰ.head e) =
    by_pid_old p.pid ps (insert q.pid q m) (rw e u.0) ∙ rw e (lookup-insert_self q.pid q m)
by_pid_found p (q ∷ ps) m u (Memᴰ.tail h) = by_pid_found p ps (insert q.pid q m) u.1 h

inserted_only :
    (k : ℤ) (p q : ProcessSnapshot) (m : Map ℤ ProcessSnapshot)
    → lookup k (insert q.pid q m) ≡ some p
    → ((p ≡ q) × (q.pid ≡ k)) ⊎ (lookup k m ≡ some p)
inserted_only k p q m e = elim (Bool-cases (int_eq q.pid k)) [
  | inl same ↦ inl (ground (arith, lookup-insert q.pid k q m), (int_eq_iff q.pid k).0 same)
  | inr other ↦ inr (ground (arith, lookup-insert q.pid k q m))
]

-- And nothing else.
by_pid_only :
    (k : ℤ) (p : ProcessSnapshot) (ps : List ProcessSnapshot) (m : Map ℤ ProcessSnapshot)
    → lookup k (by_pid ps m) ≡ some p
    → (Memᴰ p ps × (p.pid ≡ k)) ⊎ (lookup k m ≡ some p)
unfolding by_pid
by_pid_only k p [] m e = inr e
by_pid_only k p (q ∷ ps) m e = elim (by_pid_only k p ps (insert q.pid q m) e) [
  | inl (h, same) ↦ inl (Memᴰ.tail h, same)
  | inr found ↦ elim (inserted_only k p q m found) [
    | inl (here, same) ↦ inl (Memᴰ.head here, rw here same)
    | inr old ↦ inr old
  ]
]

singleton_if :
    {D : Type 0} {x y : D} (b : Bool) → Memᴰ x (if b then y ∷ [] else []) → (b ≡ true) × (x ≡ y)
singleton_if true h = (refl, Memᴰ.eq_of_singleton h)
singleton_if false h = absurd (Memᴰ.not-nil h)

module _ {D : Type 0} (F : Float D) (delta memory cpus : ℕ) where
  -- The processes of the two samples that are reported, as a relation.
  abbrev pub Reported : List ProcessSnapshot → List ProcessSnapshot → ProcessInfo D → Type 0
  Reported previous current info =
      (p : ProcessSnapshot) × (c : ProcessSnapshot) × Memᴰ p previous
      × Memᴰ c current
      × IsContinued p c
      × (info ≡ info_of F delta memory cpus p c)

  usage_of_only :
      (c : ProcessSnapshot) (o : Option ProcessSnapshot) (info : ProcessInfo D)
      → Memᴰ info (usage_of F delta memory cpus c o)
      → (p : ProcessSnapshot) × (o ≡ some p)
        × (p.start_time ≡ c.start_time)
        × (total_cpu_time p ≤ total_cpu_time c)
        × (info ≡ info_of F delta memory cpus p c)
  usage_of_only c none info h = absurd (Memᴰ.not-nil h)
  usage_of_only c (some p) info h =
      let (same, it) = singleton_if (is_same p c) h in
      (p, refl, ground (arith, same), ground (arith, same), it)

  usage_of_found :
      (c p : ProcessSnapshot)
      → p.start_time ≡ c.start_time
      → total_cpu_time p ≤ total_cpu_time c
      → usage_of F delta memory cpus c (some p) ≡ info_of F delta memory cpus p c ∷ []
  usage_of_found c p e h = ground arith

  usages_only :
      (m : Map ℤ ProcessSnapshot) (current : List ProcessSnapshot) (info : ProcessInfo D)
      → Memᴰ info (usages F delta memory cpus m current)
      → (c : ProcessSnapshot) × Memᴰ c current
        × Memᴰ info (usage_of F delta memory cpus c (lookup c.pid m))
  unfolding usages
  usages_only m [] info h = absurd (Memᴰ.not-nil h)
  usages_only m (c ∷ cs) info h =
      elim (Memᴰ.append_cases (usage_of F delta memory cpus c (lookup c.pid m)) h) [
        | inl here ↦ (c, Memᴰ.head refl, here)
        | inr later ↦ let (d, at, found) = usages_only m cs info later in (d, Memᴰ.tail at, found)
      ]

  usages_found :
      (m : Map ℤ ProcessSnapshot) (current : List ProcessSnapshot) (c : ProcessSnapshot)
      (info : ProcessInfo D)
      → Memᴰ c current
      → Memᴰ info (usage_of F delta memory cpus c (lookup c.pid m))
      → Memᴰ info (usages F delta memory cpus m current)
  unfolding usages
  usages_found m [] c info at h = absurd (Memᴰ.not-nil at)
  usages_found m (d ∷ cs) c info (Memᴰ.head e) h =
      Memᴰ.append_left (usages F delta memory cpus m cs)
        (subst (λ x. Memᴰ info (usage_of F delta memory cpus x (lookup x.pid m))) e h)
  usages_found m (d ∷ cs) c info (Memᴰ.tail at) h =
      Memᴰ.append_right (usage_of F delta memory cpus d (lookup d.pid m))
        (usages_found m cs c info at h)

  listed_found :
      (previous current : List ProcessSnapshot) (info : ProcessInfo D)
      → IsUnique previous
      → Reported previous current info
      → Memᴰ info (usages F delta memory cpus (by_pid previous []) current)
  listed_found previous current info u (p, c, at_p, at_c, (same, start, up), it) =
      let found =
        subst (λ k. lookup k (by_pid previous []) ≡ some p) same
          (by_pid_found p previous [] u at_p) in
      usages_found (by_pid previous []) current c info at_c
        (rw (found, usage_of_found c p start up) (Memᴰ.head it))

  listed_only :
      (previous current : List ProcessSnapshot) (info : ProcessInfo D)
      → Memᴰ info (usages F delta memory cpus (by_pid previous []) current)
      → Reported previous current info
  unfolding lookup
  listed_only previous current info h =
      let (c, at_c, here) = usages_only (by_pid previous []) current info h in
      let (p, found, start, up, it) = usage_of_only c _ info here in
      elim (by_pid_only c.pid p previous [] found) [
        | inl (at_p, same) ↦ (p, c, at_p, at_c, (same, start, up), it)
        | inr old ↦ absurd (cc)
      ]

-- No entry uses more of the processor than one before it.
abbrev pub IsDescending : {D : Type 0} → Float D → List (ProcessInfo D) → Type 0
IsDescending F [] = Unit
IsDescending F (a ∷ l) = All (λ b. more_cpu F b a ≡ false) l × IsDescending F l

-- What std::sort promises for this comparison.
abbrev pub SortsDescending :
    {D : Type 0} → Float D → (List (ProcessInfo D) → List (ProcessInfo D)) → Type 0
SortsDescending F sort = (l : _) → Permᴰ (sort l) l × IsDescending F (sort l)

-- Of two samples of /proc, the first with one entry for each pid, the report lists those processes
-- that are in both, with the same start time and a processor time that did not go back, with their
-- shares of the processor and of the memory, and no others; the ones that use most come first. A
-- sample without time, a machine without memory or processors gives an empty report instead.
pub calculate_usage-Reported :
    {D : Type 0} (F : Float D) (sort : List (ProcessInfo D) → List (ProcessInfo D))
    (previous current : List ProcessSnapshot) (delta memory cpus : ℕ)
    → SortsDescending F sort
    → IsUnique previous
    → 0 < delta
    → 0 < memory
    → 0 < cpus
    → let report = calculate_usage F sort previous current delta memory cpus in
      IsDescending F report
      × ((info : ProcessInfo D)
          → (Memᴰ info report → Reported F delta memory cpus previous current info)
            × (Reported F delta memory cpus previous current info → Memᴰ info report))
unfolding calculate_usage
calculate_usage-Reported F sort previous current delta memory cpus sorts u d m c =
    let l = usages F delta memory cpus (by_pid previous []) current in
    let guard : (delta == 0 || memory == 0 || cpus == 0) ≡ false = ground arith in
    rw (guard, calculate_usage)
      (
        (sorts l).1,
        λ info. (
          λ h. listed_only F delta memory cpus previous current info (member (sorts l).0 h),
          λ r.
              member (Permᴰ.symm (sorts l).0)
                (listed_found F delta memory cpus previous current info u r),
        ),
      )

-- ===== src/Agent/Sampling/Top.antt =====
-- The processes that an agent reports: `buildMetrics` over `calculateUsage`.
use lmonitor.Base.{
  ℕ, zero, suc, ◌≤◌, ◌<◌, ◌≡◌, refl, sym, ap, subst, ◌⊎◌, inl, inr, List, [], ◌∷◌, map, ok, bind_ok,
  All, length, take, drop, false, arith, ok-injective, length-take,
}
use mathlib.Core.List.{Memᴰ}
use mathlib.Core.List.Memᴰ
use lmonitor.Float.{Float}
use lmonitor.Model.{SystemMetrics}
use lmonitor.Collector.Cpu as Cpu
use lmonitor.Collector.Cpu.{difference}
use lmonitor.Collector.Process.{ProcessInfo, more_cpu, calculate_usage}
use lmonitor.Collector.Process.Usage.{
  IsUnique, IsDescending, SortsDescending, Reported, calculate_usage-Reported,
}
use lmonitor.Agent.Sampling.{
  MonitorAgent, metric_of, build_metrics, Snapshot, Round, rate_between, metrics_with, measure,
}

module _ {ℓ} {A : Type ℓ} where
  member-take : {x : A} (n : ℕ) (l : List A) → Memᴰ x (take n l) → Memᴰ x l
  member-take zero l m = absurd (Memᴰ.not-nil m)
  member-take (suc n) [] m = m
  member-take (suc n) (y ∷ l) (Memᴰ.head e) = Memᴰ.head e
  member-take (suc n) (y ∷ l) (Memᴰ.tail m) = Memᴰ.tail (member-take n l m)

  -- A member is in the first part, or behind it, and then the first part is full.
  member_split :
      {x : A} (n : ℕ) (l : List A)
      → Memᴰ x l
      → Memᴰ x (take n l) ⊎ ((length (take n l) ≡ n) × Memᴰ x (drop n l))
  member_split zero l m = inr (refl, m)
  member_split (suc n) [] m = absurd (Memᴰ.not-nil m)
  member_split (suc n) (y ∷ l) (Memᴰ.head e) = inl (Memᴰ.head e)
  member_split (suc n) (y ∷ l) (Memᴰ.tail m) = elim (member_split n l m) [
    | inl h ↦ inl (Memᴰ.tail h)
    | inr (full, h) ↦ inr (ap suc full, h)
  ]

  member-drop : {x : A} (n : ℕ) (l : List A) → Memᴰ x (drop n l) → Memᴰ x l
  member-drop zero l m = m
  member-drop (suc n) [] m = m
  member-drop (suc n) (y ∷ l) m = Memᴰ.tail (member-drop n l m)

  all_member {κ} : (P : A → Type κ) {x : A} (l : List A) → All P l → Memᴰ x l → P x
  all_member P [] h m = absurd (Memᴰ.not-nil m)
  all_member P (y ∷ l) h (Memᴰ.head e) = subst P (sym e) h.0
  all_member P (y ∷ l) h (Memᴰ.tail m) = all_member P l h.1 m

module _ {D : Type 0} (F : Float D) where
  take-All :
      (a : ProcessInfo D) (n : ℕ) (l : List (ProcessInfo D))
      → All (λ b. more_cpu F b a ≡ false) l
      → All (λ b. more_cpu F b a ≡ false) (take n l)
  take-All a zero l h = tt
  take-All a (suc n) [] h = tt
  take-All a (suc n) (x ∷ l) h = (h.0, take-All a n l h.1)

  take-IsDescending :
      (n : ℕ) (l : List (ProcessInfo D)) → IsDescending F l → IsDescending F (take n l)
  take-IsDescending zero l h = tt
  take-IsDescending (suc n) [] h = tt
  take-IsDescending (suc n) (x ∷ l) h = (take-All x n l h.0, take-IsDescending n l h.1)

  -- What is behind the first part uses no more than what is in it.
  drop_below :
      {b : ProcessInfo D} (n : ℕ) (l : List (ProcessInfo D))
      → IsDescending F l
      → Memᴰ b (drop n l)
      → All (λ a. more_cpu F b a ≡ false) (take n l)
  drop_below zero l h m = tt
  drop_below (suc n) [] h m = tt
  drop_below (suc n) (x ∷ l) h m =
      (all_member (λ c. more_cpu F c x ≡ false) l h.0 (member-drop n l m), drop_below n l h.1 m)

module _ {D : Type 0} (F : Float D) (sort : List (ProcessInfo D) → List (ProcessInfo D))
    (agent : MonitorAgent D) (previous : Snapshot) (x : Round D) where
  abbrev pub cpu_delta : ℕ
  cpu_delta = difference (Cpu.total x.current.cpu) (Cpu.total previous.cpu)

  -- The processes that run in this round and in the one before.
  abbrev pub Running : ProcessInfo D → Type 0
  Running =
      Reported F cpu_delta x.memory.total_kb agent.cpu_count previous.processes x.current.processes

  abbrev report : List (ProcessInfo D)
  report =
      calculate_usage F sort previous.processes x.current.processes cpu_delta x.memory.total_kb
        agent.cpu_count

  measure-top :
      (m : SystemMetrics D)
      → measure F sort agent previous x ≡ ok m
      → m.top_processes ≡ map metric_of (take 5 report)
  unfolding measure metrics_with build_metrics
  measure-top m e =
      let (rate, _, built) =
        bind_ok (rate_between F sort agent previous x)
          (λ rate. ok (metrics_with F sort agent previous x rate)) e in
      ap (λ r. r.top_processes) (sym (ok-injective built))

  -- When a round has measured, std::sort sorts, the round before saw each pid once, and the time, the
  -- memory and the number of processors are not zero: the metrics show at most five processes, all of
  -- which run in both rounds, in descending order of processor use; and a running process that is
  -- left out is one of more than five, and uses no more than any that is shown.
  pub measure-Top :
      (m : SystemMetrics D)
      → measure F sort agent previous x ≡ ok m
      → SortsDescending F sort
      → IsUnique previous.processes
      → 0 < cpu_delta
      → 0 < x.memory.total_kb
      → 0 < agent.cpu_count
      → (shown : List (ProcessInfo D)) × (m.top_processes ≡ map metric_of shown)
        × (length shown ≤ 5)
        × IsDescending F shown
        × ((info : ProcessInfo D) → Memᴰ info shown → Running info)
        × ((info : ProcessInfo D)
            → Running info
            → Memᴰ info shown ⊎ ((length shown ≡ 5) × All (λ a. more_cpu F info a ≡ false) shown))
  measure-Top m e sorts u d mem cpus =
      let (down, same) =
        calculate_usage-Reported F sort previous.processes x.current.processes cpu_delta
          x.memory.total_kb agent.cpu_count sorts u d mem cpus in
      (
        take 5 report,
        measure-top m e,
        omega (arith, length-take 5 report),
        take-IsDescending F 5 report down,
        λ info h. (same info).0 (member-take 5 report h),
        λ info h. elim (member_split 5 report ((same info).1 h)) [
          | inl shown ↦ inl shown
          | inr (full, left) ↦ inr (full, drop_below F 5 report down left)
        ],
      )

-- ===== src/Store/MetricsStore/Latest.antt =====
-- Runs of updates on a metrics store, src/store/MetricsStore.cpp, with its look-ups behind them.
use lmonitor.Base.{
  is_empty, is_empty_no, is_empty_cases, ℕ, ◌+◌, ◌≡◌, refl, sym, ap, subst, ◌∙◌, ◌≢◌, inl, inr,
  true, false, List, [], ◌∷◌, map, Option, none, some, ok, err, arith, if◌then◌else◌, Bool-cases,
}
use lmonitor.Base.Text.{Bytes, bytes_eq, bytes_eq_iff, bytes_key}
use lmonitor.Base.Map.{Map, lookup, insert, lookup-insert, lookup-insert_self}
use lmonitor.Model.{SystemMetrics}
use lmonitor.Store.MetricsStore.{MetricsStore, StoredMetrics, empty, update, get_latest, get_all}

module _ {D : Type 0} where
  -- One call of `update` by a worker; a call that throws leaves the store as it was.
  abbrev pub step : MetricsStore D → ℕ × SystemMetrics D → MetricsStore D
  step s (now, m) = elim (update now m s) [ ok t ↦ t | err e ↦ s ]

  unfoldable pub run : MetricsStore D → List (ℕ × SystemMetrics D) → MetricsStore D
  run s [] = s
  run s (c ∷ cs) = run (step s c) cs

  abbrev pub last_call :
      Bytes → Option (StoredMetrics D) → ℕ × SystemMetrics D → Option (StoredMetrics D)
  last_call h o (now, m) =
      if is_empty m.hostname
      then o
      else if bytes_eq m.hostname h
      then some (record { metrics = m; updated_at = now })
      else o

  -- The last metrics that were sent under the name `h`, if any, else `o`.
  unfoldable pub last_of :
      Bytes → Option (StoredMetrics D) → List (ℕ × SystemMetrics D) → Option (StoredMetrics D)
  last_of h o [] = o
  last_of h o (c ∷ cs) = last_of h (last_call h o c) cs

  get_latest-step :
      (h : Bytes) (s : MetricsStore D) (c : ℕ × SystemMetrics D)
      → get_latest h (step s c) ≡ last_call h (get_latest h s) c
  unfolding get_latest update
  get_latest-step h s (now, m) = ground (
    arith,
    lookup-insert m.hostname h (record { metrics = m; updated_at = now }) s.metrics_by_hostname,
  )

  pub get_latest-step_self :
      (now : ℕ) (m : SystemMetrics D) (s : MetricsStore D)
      → m.hostname ≢ []
      → get_latest m.hostname (step s (now, m)) ≡ some (record { metrics = m; updated_at = now })
  unfolding get_latest update
  get_latest-step_self now m s ne = ground (
    arith,
    is_empty_no m.hostname ne,
    lookup-insert_self m.hostname (record { metrics = m; updated_at = now }) s.metrics_by_hostname,
  )

  get_latest-run_from :
      (cs : List (ℕ × SystemMetrics D)) (h : Bytes) (s : MetricsStore D)
      → get_latest h (run s cs) ≡ last_of h (get_latest h s) cs
  unfolding run last_of
  get_latest-run_from [] h s = refl
  get_latest-run_from (c ∷ cs) h s =
      get_latest-run_from cs h (step s c) ∙ ap (λ o. last_of h o cs) (get_latest-step h s c)

  -- After any updates, `getLatest` returns the metrics that were sent last under the name, with the
  -- time of that call, and finds no host that sent nothing.
  pub get_latest-run :
      (h : Bytes) (cs : List (ℕ × SystemMetrics D))
      → get_latest h (run empty cs) ≡ last_of h none cs
  get_latest-run h cs =
      get_latest-run_from cs h empty ∙ ap (λ o. last_of h o cs) (unfold get_latest lookup in refl)

  -- Every entry stands under its own host name, which is not empty, and no name stands twice.
  abbrev pub IsKeyed : Map Bytes (StoredMetrics D) → Type 0
  IsKeyed [] = Unit
  IsKeyed ((k, v) ∷ m) = (k ≡ v.metrics.hostname) × (k ≢ []) × (lookup k m ≡ none) × IsKeyed m

  absent-insert :
      (k h : Bytes) (r : StoredMetrics D) (m : Map Bytes (StoredMetrics D))
      → bytes_eq k h ≡ false
      → lookup k m ≡ none
      → lookup k (insert h r m) ≡ none
  absent-insert k h r m ne a =
      ground (arith, lookup-insert h k r m, bytes_eq_iff k h, bytes_eq_iff h k)

  insert-IsKeyed :
      (h : Bytes) (r : StoredMetrics D) (m : Map Bytes (StoredMetrics D))
      → h ≡ r.metrics.hostname
      → h ≢ []
      → IsKeyed m
      → IsKeyed (insert h r m)
  unfolding insert
  insert-IsKeyed h r [] own ne k = (own, ne, unfold lookup in refl, tt)
  insert-IsKeyed h r ((j, w) ∷ m) own ne (ow, nw, a, k) = elim (Bool-cases (bytes_eq j h)) [
    | inl hit ↦ rw (hit, insert) ((bytes_eq_iff j h).0 hit ∙ own, nw, a, k)
    | inr miss ↦
        rw (miss, insert) (ow, nw, absent-insert j h r m miss a, insert-IsKeyed h r m own ne k)
  ]

  step_refused :
      (s : MetricsStore D) (now : ℕ) (m : SystemMetrics D)
      → is_empty m.hostname ≡ true
      → step s (now, m) ≡ s
  unfolding update
  step_refused s now m e = ground arith

  step_stored :
      (s : MetricsStore D) (now : ℕ) (m : SystemMetrics D)
      → is_empty m.hostname ≡ false
      → (step s (now, m)).metrics_by_hostname
        ≡ insert m.hostname (record { metrics = m; updated_at = now }) s.metrics_by_hostname
  unfolding update
  step_stored s now m e = ground arith

  step-IsKeyed :
      (s : MetricsStore D) (c : ℕ × SystemMetrics D)
      → IsKeyed s.metrics_by_hostname
      → IsKeyed (step s c).metrics_by_hostname
  step-IsKeyed s (now, m) k = elim (is_empty_cases m.hostname) [
    | inl (_, e) ↦ subst (λ t. IsKeyed t.metrics_by_hostname) (sym (step_refused s now m e)) k
    | inr (given, e) ↦ subst IsKeyed (sym (step_stored s now m e)) (
        insert-IsKeyed m.hostname (record { metrics = m; updated_at = now }) s.metrics_by_hostname
          refl given k)
  ]

  pub run-IsKeyed :
      (cs : List (ℕ × SystemMetrics D)) (s : MetricsStore D)
      → IsKeyed s.metrics_by_hostname
      → IsKeyed (run s cs).metrics_by_hostname
  unfolding run
  run-IsKeyed [] s k = k
  run-IsKeyed (c ∷ cs) s k = run-IsKeyed cs (step s c) (step-IsKeyed s c k)

  -- How often `getAll` lists records of the host `h`.
  abbrev pub count_host : Bytes → List (StoredMetrics D) → ℕ
  count_host h [] = 0
  count_host h (r ∷ rs) = (if bytes_eq r.metrics.hostname h then 1 else 0) + count_host h rs

  abbrev pub found : Option (StoredMetrics D) → ℕ
  found none = 0
  found (some r) = 1

  entries-count :
      (h : Bytes) (m : Map Bytes (StoredMetrics D))
      → IsKeyed m
      → count_host h (map (λ entry. entry.1) m) ≡ found (lookup h m)
  unfolding lookup
  entries-count h [] k = refl
  entries-count h ((j, w) ∷ m) (own, ne, a, k) =
      ground (arith, entries-count h m k, bytes_eq_iff j h, bytes_eq_iff w.metrics.hostname h)

  -- After any updates, `getAll` lists each host once if `getLatest` finds it, and else not at all.
  pub count-get_all :
      (h : Bytes) (cs : List (ℕ × SystemMetrics D))
      → count_host h (get_all (run empty cs)) ≡ found (get_latest h (run empty cs))
  unfolding get_all get_latest
  count-get_all h cs = entries-count h (run empty cs).metrics_by_hostname (run-IsKeyed cs empty tt)

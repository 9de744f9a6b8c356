-- ===== src/Store/HistoryStore/Window.antt =====
-- Runs of calls on a history store, src/store/MetricsHistoryStore.cpp, and the points that were
-- added to it.
use lmonitor.Base.{
  is_empty, ℕ, suc, ◌+◌, ◌-◌, ◌≤◌, ◌<◌, ◌≡◌, ap, sym, ◌∙◌, List, [], ◌∷◌, ◌++◌, arith,
  if◌then◌else◌, length, length-append, drop, drop-drop, drop-nil, drop-append, length-drop,
}
use native.Mathlib.Decide.{dec_lt}
use lmonitor.Base.Text.{Bytes, bytes_eq, bytes_eq_iff, bytes_key}
use lmonitor.Base.Map.{lookup, lookup-insert, lookup-erase}
use lmonitor.Store.HistoryStore.{
  MetricsHistoryPoint, MetricsHistoryStore, sample, create, trim, found, get, add, clear_host,
  clear, Call, adds, clears_host, clears,
}

module _ {D : Type 0} where
  -- The newest `n` points of a sequence that is oldest first.
  abbrev pub newest : ℕ → List (MetricsHistoryPoint D) → List (MetricsHistoryPoint D)
  newest n ps = drop (length ps - n) ps

  abbrev pub step : MetricsHistoryStore D → Call D → MetricsHistoryStore D
  step s (adds now h cpu mem) = add now h cpu mem s
  step s (clears_host h) = clear_host h s
  step s clears = clear s

  unfoldable pub run : MetricsHistoryStore D → List (Call D) → MetricsHistoryStore D
  run s [] = s
  run s (c ∷ cs) = run (step s c) cs

  -- What was added for the host `h` since it was last cleared, one call later. Nothing is added
  -- for the empty name.
  abbrev pub record_call :
      Bytes → List (MetricsHistoryPoint D) → Call D → List (MetricsHistoryPoint D)
  record_call h ps (adds now k cpu mem) =
      if is_empty k then ps else if bytes_eq k h then ps ++ sample now cpu mem ∷ [] else ps
  record_call h ps (clears_host k) = if bytes_eq k h then [] else ps
  record_call h ps clears = []

  -- All that was added for the host `h` since it was last cleared, behind `ps`.
  unfoldable pub recorded :
      Bytes → List (MetricsHistoryPoint D) → List (Call D) → List (MetricsHistoryPoint D)
  recorded h ps [] = ps
  recorded h ps (c ∷ cs) = recorded h (record_call h ps c) cs

  trim_over :
      (n : ℕ) (p : MetricsHistoryPoint D) (ps : List (MetricsHistoryPoint D))
      → n ≤ length ps
      → trim n (p ∷ ps) ≡ trim n ps
  unfolding trim
  trim_over n p ps h = ground arith

  trim_within :
      (n : ℕ) (p : MetricsHistoryPoint D) (ps : List (MetricsHistoryPoint D))
      → length ps < n
      → trim n (p ∷ ps) ≡ p ∷ ps
  unfolding trim
  trim_within n p ps h = ground arith

  trim-newest : (n : ℕ) (ps : List (MetricsHistoryPoint D)) → trim n ps ≡ newest n ps
  trim-newest n [] = unfold trim in sym (drop-nil (0 - n))
  trim-newest n (p ∷ ps) = elim (dec_lt (length ps) n) [
    | yes few ↦
        trim_within n p ps few
        ∙ (let none_over : suc (length ps) - n ≡ 0 = omega arith in rw none_over)
    | no many ↦
        trim_over n p ps (omega arith)
        ∙ trim-newest n ps
        ∙ (let one_more : suc (length ps) - n ≡ suc (length ps - n) = omega arith in rw one_more)
  ]

  newest-append :
      (n : ℕ) (ps : List (MetricsHistoryPoint D)) (p : MetricsHistoryPoint D)
      → 0 < n
      → newest n (newest n ps ++ p ∷ []) ≡ newest n (ps ++ p ∷ [])
  newest-append n ps p h =
      let k = length ps - n in
      let kept : drop k ps ++ p ∷ [] ≡ drop k (ps ++ p ∷ []) =
        sym (drop-append k ps (p ∷ []) (omega arith)) in
      let over : k + (length (drop k ps ++ p ∷ []) - n) ≡ length (ps ++ p ∷ []) - n =
        omega (
          arith,
          length-append (drop k ps) (p ∷ []),
          length-append ps (p ∷ []),
          length-drop k ps,
        ) in
      ap (drop (length (drop k ps ++ p ∷ []) - n)) kept
      ∙ drop-drop k (length (drop k ps ++ p ∷ []) - n) (ps ++ p ∷ [])
      ∙ ap (λ m. drop m (ps ++ p ∷ [])) over

  -- The limit is `n`, and of host `h` the newest `n` of the points `ps` are there.
  abbrev pub Keeps : ℕ → Bytes → List (MetricsHistoryPoint D) → MetricsHistoryStore D → Type 0
  Keeps n h ps s = (s.max_points_per_host ≡ n) × (get h s ≡ newest n ps)

  get-add :
      (now : ℕ) (k h : Bytes) (cpu mem : D) (s : MetricsHistoryStore D)
      → get h (add now k cpu mem s) ≡ (
          if is_empty k
          then get h s
          else if bytes_eq k h
          then trim s.max_points_per_host (get h s ++ sample now cpu mem ∷ [])
          else get h s)
  unfolding get add
  get-add now k h cpu mem s =
      let history = found (lookup k s.histories) ++ sample now cpu mem ∷ [] in
      ground (
        arith,
        lookup-insert k h (trim s.max_points_per_host history) s.histories,
        bytes_eq_iff k h,
      )

  max-add :
      (now : ℕ) (k : Bytes) (cpu mem : D) (s : MetricsHistoryStore D)
      → (add now k cpu mem s).max_points_per_host ≡ s.max_points_per_host
  unfolding add
  max-add now k cpu mem s = ground arith

  step-Keeps :
      (n : ℕ) (h : Bytes) (ps : List (MetricsHistoryPoint D)) (s : MetricsHistoryStore D)
      (c : Call D)
      → 0 < n
      → Keeps n h ps s
      → Keeps n h (record_call h ps c) (step s c)
  step-Keeps n h ps s (adds now k cpu mem) pos (m, g) = (
    max-add now k cpu mem s ∙ m,
    get-add now k h cpu mem s
        ∙ ground (
          arith,
          trim-newest n (newest n ps ++ sample now cpu mem ∷ []),
          newest-append n ps (sample now cpu mem) pos,
        ),
  )
  step-Keeps n h ps s (clears_host k) pos (m, g) =
      unfold clear_host get in
      ground (arith, lookup-erase k h s.histories, drop-nil {A = MetricsHistoryPoint D} (0 - n))
  step-Keeps n h ps s clears pos (m, g) =
      unfold clear get lookup in ground (arith, drop-nil {A = MetricsHistoryPoint D} (0 - n))

  run-Keeps :
      (cs : List (Call D)) (n : ℕ) (h : Bytes) (ps : List (MetricsHistoryPoint D))
      (s : MetricsHistoryStore D)
      → 0 < n
      → Keeps n h ps s
      → Keeps n h (recorded h ps cs) (run s cs)
  unfolding run recorded
  run-Keeps [] n h ps s pos k = k
  run-Keeps (c ∷ cs) n h ps s pos k =
      run-Keeps cs n h (record_call h ps c) (step s c) pos (step-Keeps n h ps s c pos k)

  create-Keeps : (n : ℕ) (h : Bytes) → 0 < n → Keeps n h [] (create n)
  unfolding create get lookup
  create-Keeps n h pos = ground (arith, drop-nil {A = MetricsHistoryPoint D} (0 - n))

  -- After any calls a new store with the limit `n` returns of each host the newest `n` of the points
  -- that were added since the host was last cleared, oldest first.
  pub get-run :
      (n : ℕ) (h : Bytes) (cs : List (Call D))
      → 0 < n
      → get h (run (create n) cs) ≡ newest n (recorded h [] cs)
  get-run n h cs pos = (run-Keeps cs n h [] (create n) pos (create-Keeps n h pos)).1

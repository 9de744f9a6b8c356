-- ===== src/Http/Api/Values.antt =====
-- The JSON texts of src/http/HttpServer.cpp as a browser reads them.
use Prim.{tt}
use lmonitor.Base.{
  ℕ, zero, suc, ◌<◌, ◌≡◌, refl, ap, ◌∙◌, subst, Bool, true, not, ◌&&◌, List, [], ◌∷◌, All, arith,
  ltb, ◌==◌,
}
use lmonitor.Base.Text.{Bytes, codes}
use lmonitor.Base.Decimal.{IsDigit, to_string, to_string-IsDigit, to_string_leading, to_string-zero}
use lmonitor.Float.{Float}
use lmonitor.Model.{SystemMetrics}
use lmonitor.Store.HistoryStore.{MetricsHistoryPoint}
use lmonitor.Alert.Manager.{AlertState, ManagedAlert}
use lmonitor.Http.Json.{
  json_escape, Json, string, number, object, Items, no_items, item, Members, no_members, member,
  print,
}
use lmonitor.Http.Json.Escape.{IsPlain}
use lmonitor.Http.Json.Parser.{is_number_char, is_number, number_from, begin, integer}
use lmonitor.Http.Json.RoundTrip.{IsGood, AreGoodMembers}
use lmonitor.Http.Api.{state_name, host_text, detail_text, point_text, alert_text}

abbrev pub fields : List (Bytes × Json) → Members
fields [] = no_members
fields ((key, v) ∷ rest) = member key v (fields rest)

-- An array of what `f` makes of each element.
abbrev pub each {ℓ} : {A : Type ℓ} → (A → Json) → List A → Items
each f [] = no_items
each f (x ∷ xs) = item (f x) (each f xs)

abbrev pub natural : ℕ → Json
natural n = number (to_string n)

abbrev is_plain : ℕ → Bool
is_plain c = not (ltb c 32 && not (c == b'\n') && not (c == b'\r') && not (c == b'\t'))

abbrev pub all_plain : Bytes → Bool
all_plain [] = true
all_plain (c ∷ s) = let rest = all_plain s in is_plain c && rest

pub all_plain-IsPlain : (s : Bytes) → all_plain s ≡ true → All IsPlain s
all_plain-IsPlain [] h = tt
all_plain-IsPlain (c ∷ s) h = (ground arith, all_plain-IsPlain s (ground arith))

digits-IsNumber : (s : Bytes) → All IsDigit s → All (λ c. is_number_char c ≡ true) s
digits-IsNumber [] d = tt
digits-IsNumber (c ∷ s) (d, ds) = (ground arith, digits-IsNumber s ds)

digits_integer : (s : Bytes) → All IsDigit s → number_from integer s ≡ true
digits_integer [] d = refl
digits_integer (c ∷ s) (d, ds) = ground (arith, digits_integer s ds)

digits_number :
    (c : ℕ) (s : Bytes) → b'0' < c → All IsDigit (c ∷ s) → number_from begin (c ∷ s) ≡ true
digits_number c s first (d, ds) = ground (arith, digits_integer s ds)

to_string-is_number : (n : ℕ) → is_number (to_string n) ≡ true
to_string-is_number zero = rw to_string-zero refl
to_string-is_number (suc n) =
    let (c, s, e, first) = to_string_leading (suc n) (omega arith) in
    ap is_number e ∙ digits_number c s first (subst (All IsDigit) e (to_string-IsDigit (suc n)))

pub natural-IsGood : (n : ℕ) → IsGood (natural n)
unfolding IsGood
natural-IsGood n = (to_string-is_number n, digits-IsNumber (to_string n) (to_string-IsDigit n))

abbrev pub keys_plain : List (Bytes × Json) → Bool
keys_plain [] = true
keys_plain ((key, v) ∷ rest) = let later = keys_plain rest in all_plain key && later

pub fields-IsGood :
    (fs : List (Bytes × Json))
    → keys_plain fs ≡ true
    → All (λ f. IsGood f.1) fs
    → AreGoodMembers (fields fs)
unfolding IsGood
fields-IsGood [] k g = tt
fields-IsGood ((key, v) ∷ fs) k (g, gs) =
    (all_plain-IsPlain key (ground arith), g, fields-IsGood fs (ground arith) gs)

module _ {D : Type 0} (show : D → Bytes) where
  abbrev pub host_fields : SystemMetrics D → List (Bytes × Json)
  host_fields m =
      (codes "hostname", string m.hostname)
      ∷ (codes "cpu", number (show m.cpu_usage_percent))
      ∷ (codes "memory", number (show m.memory_usage_percent))
      ∷ (codes "load1", number (show m.load1))
      ∷ (codes "uptime", natural m.uptime_seconds)
      ∷ []

  abbrev pub load_fields : SystemMetrics D → List (Bytes × Json)
  load_fields m =
      (codes "load1", number (show m.load1))
      ∷ (codes "load5", number (show m.load5))
      ∷ (codes "load15", number (show m.load15))
      ∷ []

  abbrev pub disk_fields : SystemMetrics D → List (Bytes × Json)
  disk_fields m = (codes "usage_percent", number (show m.disk_usage_percent)) ∷ []

  abbrev pub network_fields : SystemMetrics D → List (Bytes × Json)
  network_fields m = (codes "interface", string m.network_interface) ∷ []

  abbrev pub detail_fields : SystemMetrics D → List (Bytes × Json)
  detail_fields m =
      (codes "hostname", string m.hostname)
      ∷ (codes "cpu", number (show m.cpu_usage_percent))
      ∷ (codes "memory", number (show m.memory_usage_percent))
      ∷ (codes "uptime_seconds", natural m.uptime_seconds)
      ∷ (codes "logical_cpus", natural m.logical_cpu_count)
      ∷ (codes "load", object (fields (load_fields m)))
      ∷ (codes "disk", object (fields (disk_fields m)))
      ∷ (codes "network", object (fields (network_fields m)))
      ∷ []

  abbrev pub point_fields : MetricsHistoryPoint D → List (Bytes × Json)
  point_fields p =
      (codes "timestamp", natural p.timestamp_ms)
      ∷ (codes "cpu", number (show p.cpu_usage_percent))
      ∷ (codes "memory", number (show p.memory_usage_percent))
      ∷ []

  abbrev pub alert_fields : ManagedAlert D → List (Bytes × Json)
  alert_fields a =
      (codes "hostname", string a.hostname)
      ∷ (codes "metric", string a.metric)
      ∷ (codes "state", string (state_name a.state))
      ∷ (codes "current_value", number (show a.current_value))
      ∷ (codes "threshold", number (show a.threshold))
      ∷ (codes "message", string a.message)
      ∷ []

module _ {D : Type 0} (F : Float D) where
  pub host_text-print :
      (m : SystemMetrics D) (rest : Bytes)
      → host_text F m rest ≡ print (object (fields (host_fields F.print m))) rest
  unfolding print json_escape
  host_text-print m rest = refl

  pub detail_text-print :
      (m : SystemMetrics D) (rest : Bytes)
      → detail_text F m rest ≡ print (object (fields (detail_fields F.print m))) rest
  unfolding print json_escape
  detail_text-print m rest = refl

  pub point_text-print :
      (p : MetricsHistoryPoint D) (rest : Bytes)
      → point_text F p rest ≡ print (object (fields (point_fields F.print p))) rest
  unfolding print json_escape
  point_text-print p rest = refl

  state_name-escape : (s : AlertState) → json_escape (state_name s) ≡ state_name s
  unfolding json_escape
  state_name-escape AlertState.normal = refl
  state_name-escape AlertState.pending = refl
  state_name-escape AlertState.firing = refl

  pub alert_text-print :
      (a : ManagedAlert D) (rest : Bytes)
      → alert_text F a rest ≡ print (object (fields (alert_fields F.print a))) rest
  unfolding print json_escape
  alert_text-print a rest = rw (state_name-escape a.state) refl

-- ===== src/Proxy/Stats.antt =====
-- cmd/proxy/stats.go: the snapshot behind /stats. What the queries return is the argument `Rows`, one
-- row per group; days are numbers. The panels of floating-point numbers (throughput and the use of
-- the disk) and the transferred bytes, which no view cuts, are left out.
use debuginfod_pwndbg_re.Prelude.{
  ℕ, zero, suc, ◌+◌, ◌-◌, ◌%◌, ◌^◌, Bool, true, false, not, ◌&&◌, ◌||◌, String, str_eq, List, [],
  ◌∷◌, ◌++◌, map, Option, none, some, lookup, put, length, drop, sort, ltb, leb, ◌==◌,
  if◌then◌else◌,
}
pub mod Pages
pub mod Series
pub mod Tails
pub mod Windows
pub mod Views
mod Tests

abbrev pub unresolved_label : String
unresolved_label = "unresolved"

pub record StatusCounts : Type 0 where
  pub served : ℕ
  pub aborted : ℕ
  pub not_found : ℕ
  pub err5xx : ℕ

abbrev pub no_counts : StatusCounts
no_counts = record { served = 0; aborted = 0; not_found = 0; err5xx = 0 }

-- `total`
unfoldable pub total : StatusCounts → ℕ
total c = (c.served + c.aborted + c.not_found + c.err5xx) % 2 ^ 64

pub record ProbeDay : Type 0 where
  pub succeeded : ℕ
  pub failed : ℕ
  pub p50 : ℕ
  pub p95 : ℕ
  pub fail_p50 : ℕ
  pub fail_p95 : ℕ

abbrev pub no_probes : ProbeDay
no_probes = record { succeeded = 0; failed = 0; p50 = 0; p95 = 0; fail_p50 = 0; fail_p95 = 0 }

abbrev pub or_else : {A : Type 0} → A → Option A → A
or_else x none = x
or_else x (some y) = y

module _ {A : Type 0} where
  unfoldable pub replicate : ℕ → A → List A
  replicate zero x = []
  replicate (suc n) x = x ∷ replicate n x

  -- `series[i] = v`; the index is below the length.
  unfoldable pub set : List A → ℕ → A → List A
  set [] i v = []
  set (x ∷ xs) zero v = v ∷ xs
  set (x ∷ xs) (suc i) v = x ∷ set xs i v

  -- A value of a day that `idx` does not know is skipped.
  unfoldable pub set_day : Option ℕ → A → List A → List A
  set_day none v xs = xs
  set_day (some i) v xs = set xs i v

  -- The series of a key, made when its first value comes.
  unfoldable pub record_day :
      A → ℕ → Option ℕ → String → A → List (String × List A) → List (String × List A)
  record_day blank n none key v m = m
  record_day blank n (some i) key v m =
      put key (set (or_else (replicate n blank) (lookup key m)) i v) m

-- idx: the position of a day among the `days + 1` that end with `end`.
unfoldable pub day_index : ℕ → ℕ → ℕ → Option ℕ
day_index end days d = if leb end (d + days) && leb d end then some (d + days - end) else none

-- snap.Days
unfoldable pub day_list : ℕ → ℕ → List ℕ
day_list end zero = end ∷ []
day_list end (suc days) = (end - suc days) ∷ day_list end days

pub record TrafficRow : Type 0 where
  pub day : ℕ
  pub host : String
  pub endpoint : String
  pub counts : StatusCounts

pub record ClientsRow : Type 0 where
  pub day : ℕ
  pub ips : ℕ
  pub build_ids : ℕ
  pub requests : ℕ

pub record ProbeRow : Type 0 where
  pub day : ℕ
  pub host : String
  pub probes : ProbeDay

pub record CountryRow : Type 0 where
  pub day : ℕ
  pub country : String
  pub requests : ℕ
  pub uniques : ℕ

pub record Rows : Type 0 where
  pub traffic : List TrafficRow
  pub clients : List ClientsRow
  pub probes : List ProbeRow
  pub countries : List CountryRow
  pub recent : List (String × ℕ)

abbrev pub Traffic : Type 0
Traffic = List (String × List (String × List StatusCounts))

pub record Snapshot : Type 0 where
  pub days : List ℕ
  pub smooth : ℕ
  pub traffic : Traffic
  pub hosts : List String
  pub clients : List ℕ
  pub build_ids : List ℕ
  pub requests : List ℕ
  pub probes : List (String × List ProbeDay)
  pub probe_hosts : List String
  pub probe_total : ℕ
  pub probe_ok : ℕ
  pub probe_recent : List (String × ℕ)
  pub probe_recent_total : ℕ
  pub country : List (String × List ℕ)
  pub country_clients : List (String × List ℕ)
  pub countries : List String

unfoldable pub smooth_window_for : ℕ → ℕ
smooth_window_for days = if leb days 14 then 1 else if leb days 60 then 3 else 7

unfoldable pub sum_u : List ℕ → ℕ
sum_u [] = 0
sum_u (x ∷ xs) = (x + sum_u xs) % 2 ^ 64

unfoldable pub max_u : List ℕ → ℕ
max_u [] = 0
max_u (x ∷ xs) = let rest = max_u xs in if ltb rest x then x else rest

unfoldable pub keys : {V : Type 0} → List (String × V) → List String
keys [] = []
keys (e ∷ rest) = e.0 ∷ keys rest

abbrev pub by_endpoint : String → Traffic → List (String × List StatusCounts)
by_endpoint host traffic = or_else [] (lookup host traffic)

unfoldable pub traffic_weight : Traffic → String → ℕ
traffic_weight traffic host = sum_u (map (λ e. sum_u (map total e.1)) (by_endpoint host traffic))

unfoldable pub probe_weight : List (String × List ProbeDay) → String → ℕ
probe_weight probes host =
    sum_u (map (λ p. (p.succeeded + p.failed) % 2 ^ 64) (or_else [] (lookup host probes)))

-- One row of collectTraffic.
unfoldable pub record_traffic : (ℕ → Option ℕ) → ℕ → TrafficRow → Traffic → Traffic
record_traffic idx n r traffic = elim (idx r.day) [
  | none ↦ traffic
  | some i ↦
      put r.host (record_day no_counts n (some i) r.endpoint r.counts (by_endpoint r.host traffic))
        traffic
]

unfoldable pub record_all_traffic : (ℕ → Option ℕ) → ℕ → List TrafficRow → Traffic → Traffic
record_all_traffic idx n [] traffic = traffic
record_all_traffic idx n (r ∷ rows) traffic =
    record_all_traffic idx n rows (record_traffic idx n r traffic)

-- collectClients, one of its series.
unfoldable pub record_clients :
    (ℕ → Option ℕ) → (ClientsRow → ℕ) → List ClientsRow → List ℕ → List ℕ
record_clients idx value [] xs = xs
record_clients idx value (r ∷ rows) xs =
    record_clients idx value rows (set_day (idx r.day) (value r) xs)

unfoldable pub record_probes :
    (ℕ → Option ℕ)
    → ℕ
    → List ProbeRow
    → List (String × List ProbeDay)
    → List (String × List ProbeDay)
record_probes idx n [] probes = probes
record_probes idx n (r ∷ rows) probes =
    record_probes idx n rows (record_day no_probes n (idx r.day) r.host r.probes probes)

-- The totals of collectProbes.
unfoldable pub probe_sum : (ℕ → Option ℕ) → (ProbeDay → ℕ) → List ProbeRow → ℕ
probe_sum idx value [] = 0
probe_sum idx value (r ∷ rows) = elim (idx r.day) [
  | none ↦ probe_sum idx value rows
  | some _ ↦ (value r.probes + probe_sum idx value rows) % 2 ^ 64
]

unfoldable pub record_countries :
    (ℕ → Option ℕ)
    → ℕ
    → (CountryRow → ℕ)
    → List CountryRow
    → List (String × List ℕ)
    → List (String × List ℕ)
record_countries idx n value [] country = country
record_countries idx n value (r ∷ rows) country =
    record_countries idx n value rows (record_day 0 n (idx r.day) r.country (value r) country)

unfoldable pub record_recent : List (String × ℕ) → List (String × ℕ) → List (String × ℕ)
record_recent [] recent = recent
record_recent (r ∷ rows) recent = record_recent rows (put r.0 r.1 recent)

-- cutU, and the same for the other series.
unfoldable pub cut_series : {A : Type 0} → ℕ → ℕ → List A → List A
cut_series from n xs = if ltb (length xs) n then xs else drop from xs

abbrev pub cut_all : {A : Type 0} → ℕ → ℕ → List (String × List A) → List (String × List A)
cut_all from n = map (λ e. (e.0, cut_series from n e.1))

abbrev pub all_days : {A : Type 0} → (A → ℕ) → List (String × List A) → ℕ
all_days value m = sum_u (map (λ e. sum_u (map value e.1)) m)

-- Go's `<` on strings is the argument `less`.
module _ (less : String → String → Bool) where
  -- The comparison of sortHostsByVolume.
  unfoldable pub host_before : (String → ℕ) → String → String → Bool
  host_before weight a b =
      if str_eq a unresolved_label
      then not (str_eq b unresolved_label)
      else if str_eq b unresolved_label
      then false
      else if weight a == weight b
      then less a b
      else ltb (weight b) (weight a)

  unfoldable pub sort_hosts_by_volume : (String → ℕ) → List String → List String
  sort_hosts_by_volume weight = sort (host_before weight)

  unfoldable pub country_before : (String → ℕ) → String → String → Bool
  country_before weight a b = if weight a == weight b then less a b else ltb (weight b) (weight a)

  unfoldable pub sort_countries : List (String × List ℕ) → List String → List String
  sort_countries country = sort (country_before (λ c. sum_u (or_else [] (lookup c country))))

  -- CollectStats for the `days + 1` days that end with `end`.
  unfoldable pub collect_stats : ℕ → ℕ → Rows → Snapshot
  collect_stats end days rows =
      let idx = day_index end days in
      let n = days + 1 in
      let traffic = record_all_traffic idx n rows.traffic [] in
      let probes = record_probes idx n rows.probes [] in
      let country = record_countries idx n (λ r. r.requests) rows.countries [] in
      record {
        days = day_list end days;
        smooth = smooth_window_for days;
        traffic = traffic;
        hosts = sort_hosts_by_volume (traffic_weight traffic) (keys traffic);
        clients = record_clients idx (λ r. r.ips) rows.clients (replicate n 0);
        build_ids = record_clients idx (λ r. r.build_ids) rows.clients (replicate n 0);
        requests = record_clients idx (λ r. r.requests) rows.clients (replicate n 0);
        probes = probes;
        probe_hosts = sort_hosts_by_volume (probe_weight probes) (keys probes);
        probe_total = probe_sum idx (λ p. (p.succeeded + p.failed) % 2 ^ 64) rows.probes;
        probe_ok = probe_sum idx (λ p. p.succeeded) rows.probes;
        probe_recent = record_recent rows.recent [];
        probe_recent_total = sum_u (map (λ r. r.1) rows.recent);
        country = country;
        country_clients = record_countries idx n (λ r. r.uniques) rows.countries [];
        countries = sort_countries country (keys country);
      }

  unfoldable pub cut_snapshot : ℕ → Snapshot → ℕ → Snapshot
  cut_snapshot from src days =
      let n = length src.days in
      let traffic = map (λ e. (e.0, cut_all from n e.1)) src.traffic in
      let probes = cut_all from n src.probes in
      let country = cut_all from n src.country in
      record {
        days = drop from src.days;
        smooth = smooth_window_for days;
        traffic = traffic;
        hosts = sort_hosts_by_volume (traffic_weight traffic) src.hosts;
        clients = cut_series from n src.clients;
        build_ids = cut_series from n src.build_ids;
        requests = cut_series from n src.requests;
        probes = probes;
        probe_hosts = sort_hosts_by_volume (probe_weight probes) src.probe_hosts;
        probe_total = all_days (λ p. (p.succeeded + p.failed) % 2 ^ 64) probes;
        probe_ok = all_days (λ p. p.succeeded) probes;
        probe_recent = src.probe_recent;
        probe_recent_total = src.probe_recent_total;
        country = country;
        country_clients =
            map (λ e. (e.0, cut_series from n (or_else [] (lookup e.0 src.country_clients))))
              src.country;
        countries = sort_countries country src.countries;
      }

  -- sliceSnapshot
  unfoldable pub slice_snapshot : Snapshot → ℕ → Snapshot
  slice_snapshot src days =
      let n = length src.days in
      if leb n (days + 1)
      then record src { smooth = smooth_window_for days }
      else cut_snapshot (n - (days + 1)) src days

-- isOffline
unfoldable pub is_offline : Snapshot → String → Bool
is_offline s host =
    let probed : Bool = elim (lookup host s.probes) [ none ↦ false | some _ ↦ true ] in
    if s.probe_recent_total == 0 || str_eq host "" || str_eq host unresolved_label
    then false
    else probed && or_else 0 (lookup host s.probe_recent) == 0

unfoldable pub count_offline : Snapshot → List String → ℕ
count_offline s [] = 0
count_offline s (h ∷ hosts) = (if is_offline s h then 1 else 0) + count_offline s hosts

-- offlineCount
unfoldable pub offline_count : Snapshot → ℕ
offline_count s = count_offline s s.probe_hosts

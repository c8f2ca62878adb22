-- ===== src/Proxy/Stats/Windows.antt =====
-- cmd/proxy/stats.go: a view is cut from the longest collection. It shows what a collection of its own
-- days would.
use debuginfod_pwndbg_re.Prelude.{
  ℕ, ◌+◌, ◌-◌, Bool, String, str_eq, eq_iff, List, [], ◌∷◌, map, Option, none, some, lookup,
  lookup-put, length, drop, leb, ◌≡◌, refl, sym, ap, ◌∙◌, subst, arith, Bool-cases, inl, inr,
}
use mathlib.Core.Option
use debuginfod_pwndbg_re.Proxy.Stats.{
  no_counts, no_probes, replicate, set, or_else, record_day, day_list, TrafficRow, ClientsRow,
  ProbeRow, CountryRow, Rows, Traffic, Snapshot, smooth_window_for, by_endpoint, record_all_traffic,
  record_clients, record_probes, record_countries, collect_stats, cut_series, cut_all, cut_snapshot,
  slice_snapshot,
}
use debuginfod_pwndbg_re.Proxy.Stats.Series.{
  series_of, length-replicate, drop-replicate, lookup-cut_all, cut_series_lem,
}
use debuginfod_pwndbg_re.Proxy.Stats.Tails.{
  length-day_list, drop-day_list, long, short, clients_window, length-record_clients, no_rows,
  cut_window, probes-IsWindow, countries-IsWindow, traffic-IsWindow,
}

lookup-map_keyed :
    {A : Type 0} {B : Type 0} (f : String → B) (k : String) (m : List (String × A))
    → lookup k (map (λ e. (e.0, f e.0)) m) ≡ Option.map (λ _. f k) (lookup k m)
unfolding lookup
lookup-map_keyed f k [] = refl
lookup-map_keyed f k (e ∷ m) = elim (Bool-cases (str_eq e.0 k)) [
  | inl q ↦ rw q (ap (λ j. some (f j)) ((eq_iff e.0 k).0 q))
  | inr q ↦ rw q (lookup-map_keyed f k m)
]

by_endpoint-cut :
    (from n : ℕ) (host : String) (t : Traffic)
    → by_endpoint host (map (λ e. (e.0, cut_all from n e.1)) t)
      ≡ cut_all from n (by_endpoint host t)
unfolding lookup
by_endpoint-cut from n host [] = refl
by_endpoint-cut from n host (e ∷ t) = elim (Bool-cases (str_eq e.0 host)) [
  | inl q ↦ rw q refl
  | inr q ↦ rw q (by_endpoint-cut from n host t)
]

-- Two tables that know the same keys.
abbrev SameKeys : List (String × List ℕ) → List (String × List ℕ) → Type 0
SameKeys a b = (k : String) → lookup k a ≡ none → lookup k b ≡ none

record_day-SameKeys :
    (n : ℕ) (o : Option ℕ) (key : String) (v w : ℕ) (a b : List (String × List ℕ))
    → SameKeys a b
    → SameKeys (record_day 0 n o key v a) (record_day 0 n o key w b)
unfolding record_day
record_day-SameKeys n none key v w a b same k e = same k e
record_day-SameKeys n (some i) key v w a b same k e =
    let x = set (or_else (replicate n 0) (lookup key a)) i v in
    let y = set (or_else (replicate n 0) (lookup key b)) i w in
    elim (Bool-cases (str_eq key k)) [
      | inl q ↦ absurd (cc (rw (lookup-put key k x a, q) at e))
      | inr q ↦ rw (lookup-put key k y b, q) (same k (rw (lookup-put key k x a, q) at e))
    ]

record_countries-SameKeys :
    (idx : ℕ → Option ℕ) (n : ℕ) (f g : CountryRow → ℕ) (rows : List CountryRow)
    (a b : List (String × List ℕ))
    → SameKeys a b
    → SameKeys (record_countries idx n f rows a) (record_countries idx n g rows b)
unfolding record_countries
record_countries-SameKeys idx n f g [] a b same = same
record_countries-SameKeys idx n f g (r ∷ rows) a b same =
    record_countries-SameKeys idx n f g rows _ _
      (record_day-SameKeys n (idx r.day) r.country (f r) (g r) a b same)

keyed_cases :
    (cut : List ℕ → List ℕ) (blanks : List ℕ) (o p : Option (List ℕ))
    → (o ≡ none → p ≡ none)
    → (p ≡ none → o ≡ none)
    → or_else blanks (Option.map (λ _. cut (or_else [] p)) o) ≡ or_else blanks (Option.map cut p)
keyed_cases cut blanks none none f g = refl
keyed_cases cut blanks none (some x) f g = absurd (cc (f refl))
keyed_cases cut blanks (some x) none f g = absurd (cc (g refl))
keyed_cases cut blanks (some x) (some y) f g = refl

-- Two snapshots show the same: the days, the smoothing, and every series, with a key that is missing
-- read as a series of zeros.
pub record ShowsSame (s t : Snapshot) : Type 0 where
  pub days : s.days ≡ t.days
  pub smooth : s.smooth ≡ t.smooth
  pub clients : s.clients ≡ t.clients
  pub build_ids : s.build_ids ≡ t.build_ids
  pub requests : s.requests ≡ t.requests
  pub traffic :
      (host endpoint : String)
      → series_of no_counts (length t.days) endpoint (by_endpoint host s.traffic)
        ≡ series_of no_counts (length t.days) endpoint (by_endpoint host t.traffic)
  pub probes :
      (host : String)
      → series_of no_probes (length t.days) host s.probes
        ≡ series_of no_probes (length t.days) host t.probes
  pub country :
      (c : String)
      → series_of {A = ℕ} 0 (length t.days) c s.country
        ≡ series_of {A = ℕ} 0 (length t.days) c t.country
  pub country_clients :
      (c : String)
      → series_of {A = ℕ} 0 (length t.days) c s.country_clients
        ≡ series_of {A = ℕ} 0 (length t.days) c t.country_clients

-- The parts of a cut, with the sizes as they come.
module _ (end days more n size shown : ℕ) (n_lem : n ≡ more + (days + 1))
    (size_lem : size ≡ more + (days + 1)) (shown_lem : shown ≡ days + 1) where
  clients_part :
      (value : ClientsRow → ℕ) (rows : List ClientsRow)
      → cut_series more size (record_clients (long end days more) value rows (replicate n 0))
        ≡ record_clients (short end days more) value rows (replicate (days + 1) 0)
  clients_part value rows =
      cut_series_lem more size _ (
        length-record_clients end days more (long end days more) value rows (replicate n 0)
        ∙ length-replicate {A = ℕ} n 0
        ∙ n_lem
        ∙ sym size_lem)
      ∙ clients_window end days more value rows _ _ (
          ap (λ m. drop more (replicate {A = ℕ} m 0)) n_lem
          ∙ drop-replicate {A = ℕ} more (days + 1) 0)

  probes_part :
      (host : String) (rows : List ProbeRow)
      → series_of no_probes shown host
          (cut_all more size (record_probes (long end days more) n rows []))
        ≡ series_of no_probes shown host (record_probes (short end days more) (days + 1) rows [])
  probes_part host rows =
      rw (n_lem, size_lem, shown_lem)
        (cut_window end days more no_probes host _ _
          (probes-IsWindow end days more rows [] [] (no_rows end days more no_probes)))

  traffic_part :
      (host endpoint : String) (rows : List TrafficRow)
      → series_of no_counts shown endpoint (
          by_endpoint host (
            map
              (λ e. (e.0, cut_all more size e.1))
              (record_all_traffic (long end days more) n rows [])))
        ≡ series_of no_counts shown endpoint
            (by_endpoint host (record_all_traffic (short end days more) (days + 1) rows []))
  unfolding lookup
  traffic_part host endpoint rows =
      rw
        (
          by_endpoint-cut more size host (record_all_traffic (long end days more) n rows []),
          n_lem,
          size_lem,
          shown_lem,
        )
        (cut_window end days more no_counts endpoint _ _
          (traffic-IsWindow end days more rows [] [] (λ _. no_rows end days more no_counts) host))

  country_part :
      (value : CountryRow → ℕ) (c : String) (rows : List CountryRow)
      → series_of {A = ℕ} 0 shown c
          (cut_all more size (record_countries (long end days more) n value rows []))
        ≡ series_of {A = ℕ} 0 shown c
            (record_countries (short end days more) (days + 1) value rows [])
  country_part value c rows =
      rw (n_lem, size_lem, shown_lem)
        (cut_window end days more {A = ℕ} 0 c _ _
          (countries-IsWindow end days more value rows [] [] (no_rows end days more {A = ℕ} 0)))

  -- The clients of a country are cut under the keys of the other table.
  keyed_part :
      (f g : CountryRow → ℕ) (c : String) (rows : List CountryRow)
      → series_of {A = ℕ} 0 shown c (
          map
            (λ e. (
              e.0,
              cut_series more size
                  (or_else [] (lookup e.0 (record_countries (long end days more) n g rows []))),
            ))
            (record_countries (long end days more) n f rows []))
        ≡ series_of {A = ℕ} 0 shown c
            (cut_all more size (record_countries (long end days more) n g rows []))
  keyed_part f g c rows =
      let a = record_countries (long end days more) n f rows [] in
      let b = record_countries (long end days more) n g rows [] in
      rw
        (
          lookup-map_keyed (λ k. cut_series more size (or_else [] (lookup k b))) c a,
          lookup-cut_all more size c b,
        )
        (keyed_cases (cut_series more size) (replicate shown 0) (lookup c a) (lookup c b)
          (record_countries-SameKeys (long end days more) n f g rows [] [] (λ k e. e) c)
          (record_countries-SameKeys (long end days more) n g f rows [] [] (λ k e. e) c))

module _ (less : String → String → Bool) (end days more : ℕ) (rows : Rows) where
  abbrev whole : Snapshot
  whole = collect_stats less end (days + more) rows

  days_drop : drop more (day_list end (days + more)) ≡ day_list end days
  days_drop = ap (λ m. drop more (day_list end m)) (omega arith) ∙ drop-day_list end days more

  cut_window_lem : ShowsSame (cut_snapshot less more whole days) (collect_stats less end days rows)
  unfolding collect_stats cut_snapshot
  cut_window_lem =
      let size : length (day_list end (days + more)) ≡ more + (days + 1) =
        omega (arith, length-day_list end (days + more)) in
      let n : days + more + 1 ≡ more + (days + 1) = omega arith in
      let shown = length-day_list end days in
      record {
        days = days_drop;
        smooth = refl;
        clients = clients_part end days more _ _ _ n size shown (λ r. r.ips) rows.clients;
        build_ids = clients_part end days more _ _ _ n size shown (λ r. r.build_ids) rows.clients;
        requests = clients_part end days more _ _ _ n size shown (λ r. r.requests) rows.clients;
        traffic = λ host endpoint.
            traffic_part end days more _ _ _ n size shown host endpoint rows.traffic;
        probes = λ host. probes_part end days more _ _ _ n size shown host rows.probes;
        country =
            λ c. country_part end days more _ _ _ n size shown (λ r. r.requests) c rows.countries;
        country_clients = λ c.
            keyed_part end days more _ _ _ n size shown (λ r. r.requests) (λ r. r.uniques) c
              rows.countries
            ∙ country_part end days more _ _ _ n size shown (λ r. r.uniques) c rows.countries;
      }

own_window :
    (less : String → String → Bool) (end days : ℕ) (rows : Rows)
    → ShowsSame
        (record (collect_stats less end days rows) { smooth = smooth_window_for days })
        (collect_stats less end days rows)
unfolding collect_stats
own_window less end days rows = record {
  days = refl;
  smooth = refl;
  clients = refl;
  build_ids = refl;
  requests = refl;
  traffic = λ host endpoint. refl;
  probes = λ host. refl;
  country = λ c. refl;
  country_clients = λ c. refl;
}

collected_days :
    (less : String → String → Bool) (end days : ℕ) (rows : Rows)
    → length (collect_stats less end days rows).days ≡ days + 1
unfolding collect_stats
collected_days less end days rows = length-day_list end days

-- A view that is cut from a longer collection shows what a collection of its own days would: the same
-- days and smoothing, and the same series of clients, of every host and endpoint, of every host's
-- probes and of every country, where a key that does not occur reads as zeros.
pub slice_snapshot-collect_stats :
    (less : String → String → Bool) (end days more : ℕ) (rows : Rows)
    → ShowsSame
        (slice_snapshot less (collect_stats less end (days + more) rows) days)
        (collect_stats less end days rows)
unfolding slice_snapshot
slice_snapshot-collect_stats less end days more rows =
    let n = collected_days less end (days + more) rows in
    elim (Bool-cases (leb (length (collect_stats less end (days + more) rows).days) (days + 1))) [
      | inl all ↦
          let none_cut : days ≡ days + more = ground (arith, all, n) in
          rw all (
            subst
              (λ m.
                ShowsSame
                  (record (collect_stats less end m rows) { smooth = smooth_window_for days })
                  (collect_stats less end days rows))
              none_cut (own_window less end days rows))
      | inr part ↦
          let cut : length (collect_stats less end (days + more) rows).days - (days + 1) ≡ more =
            omega (arith, n) in
          rw (part, cut) (cut_window_lem less end days more rows)
    ]

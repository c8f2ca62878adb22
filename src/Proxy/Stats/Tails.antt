-- ===== src/Proxy/Stats/Tails.antt =====
-- cmd/proxy/stats.go: the tables of a long window and of its last days, filled row by row.
use debuginfod_pwndbg_re.Prelude.{
  ℕ, zero, suc, ◌+◌, Bool, true, false, String, str_eq, eq_iff, List, [], ◌∷◌, Option, some, lookup,
  lookup-put, length, drop, ◌≡◌, refl, sym, ap, ◌∙◌, subst, arith, Bool-cases, Option-cases, inl,
  inr, if◌then◌else◌,
}
use debuginfod_pwndbg_re.Proxy.Stats.{
  StatusCounts, no_counts, ProbeDay, no_probes, set_day, record_day, day_index, day_list,
  TrafficRow, ClientsRow, ProbeRow, CountryRow, Traffic, by_endpoint, record_traffic,
  record_all_traffic, record_clients, record_probes, record_countries, cut_all,
}
use debuginfod_pwndbg_re.Proxy.Stats.Series.{
  series_of, length-set_day, drop-replicate, drop-set_day, series_of-record_day, HaveLength,
  series_of-cut_all, record_day-HaveLength,
}

pub length-day_list : (end days : ℕ) → length (day_list end days) ≡ days + 1
unfolding day_list
length-day_list end zero = refl
length-day_list end (suc days) = omega (arith, length-day_list end days)

pub drop-day_list : (end days more : ℕ) → drop more (day_list end (more + days)) ≡ day_list end days
unfolding day_list
drop-day_list end days zero = ap (day_list end) (omega arith)
drop-day_list end days (suc more) =
    let step : suc more + days ≡ suc (more + days) = omega arith in
    rw step (drop-day_list end days more)

if_same : {A : Type 0} (b : Bool) (x : A) → x ≡ (if b then x else x)
if_same true x = refl
if_same false x = refl

by_endpoint-record_traffic :
    (idx : ℕ → Option ℕ) (n : ℕ) (r : TrafficRow) (host : String) (t : Traffic)
    → by_endpoint host (record_traffic idx n r t) ≡ (
        if str_eq r.host host
        then record_day no_counts n (idx r.day) r.endpoint r.counts (by_endpoint host t)
        else by_endpoint host t)
unfolding record_traffic record_day
by_endpoint-record_traffic idx n r host t = elim (Option-cases (idx r.day)) [
  | inl e ↦ rw (e, record_traffic) (if_same (str_eq r.host host) (by_endpoint host t))
  | inr (i, e) ↦
      let row = record_day no_counts n (some i) r.endpoint r.counts (by_endpoint r.host t) in
      elim (Bool-cases (str_eq r.host host)) [
        | inl q ↦
            rw (e, record_traffic, lookup-put r.host host row t, q)
              (ap (λ h. record_day no_counts n (some i) r.endpoint r.counts (by_endpoint h t))
                ((eq_iff r.host host).0 q))
        | inr q ↦ rw (e, record_traffic, lookup-put r.host host row t, q) refl
      ]
]

-- `more` days are cut from a window of `days + more + 1`.
module _ (end days more : ℕ) where
  abbrev pub long : ℕ → Option ℕ
  long = day_index end (days + more)

  abbrev pub short : ℕ → Option ℕ
  short = day_index end days

  pub clients_window :
      (value : ClientsRow → ℕ) (rows : List ClientsRow) (xs ys : List ℕ)
      → drop more xs ≡ ys
      → drop more (record_clients long value rows xs) ≡ record_clients short value rows ys
  unfolding record_clients
  clients_window value [] xs ys e = e
  clients_window value (r ∷ rows) xs ys e =
      clients_window value rows _ _
        (drop-set_day end days more r.day (value r) xs ∙ ap (set_day (short r.day) (value r)) e)

  pub length-record_clients :
      (idx : ℕ → Option ℕ) (value : ClientsRow → ℕ) (rows : List ClientsRow) (xs : List ℕ)
      → length (record_clients idx value rows xs) ≡ length xs
  unfolding record_clients
  length-record_clients idx value [] xs = refl
  length-record_clients idx value (r ∷ rows) xs =
      length-record_clients idx value rows _ ∙ length-set_day (idx r.day) (value r) xs

  module _ {A : Type 0} (blank : A) where
    -- The table of the long window and that of the short one.
    pub record IsWindow (m m' : List (String × List A)) : Type 0 where
      full : HaveLength (more + (days + 1)) m
      ends :
          (k : String)
          → drop more (series_of blank (more + (days + 1)) k m) ≡ series_of blank (days + 1) k m'

    pub no_rows : IsWindow [] []
    unfolding lookup
    no_rows = record {
      full = λ k xs e. absurd (cc);
      ends = λ k. drop-replicate more (days + 1) blank;
    }

    record_day-IsWindow :
        (d : ℕ) (key : String) (v : A) (m m' : List (String × List A))
        → IsWindow m m'
        → IsWindow
            (record_day blank (more + (days + 1)) (long d) key v m)
            (record_day blank (days + 1) (short d) key v m')
    record_day-IsWindow d key v m m' w = record {
      full = record_day-HaveLength blank (more + (days + 1)) (long d) key v m w.full;
      ends = λ k.
          let e = series_of-record_day blank (more + (days + 1)) (long d) key k v m in
          let e' = series_of-record_day blank (days + 1) (short d) key k v m' in
          elim (Bool-cases (str_eq key k)) [
            | inl s ↦
                ap (drop more) (rw s at e)
                ∙ drop-set_day end days more d v _
                ∙ ap (set_day (short d) v) (w.ends k)
                ∙ sym (rw s at e')
            | inr s ↦ ap (drop more) (rw s at e) ∙ w.ends k ∙ sym (rw s at e')
          ];
    }

    pub cut_window :
        (k : String) (m m' : List (String × List A))
        → IsWindow m m'
        → series_of blank (days + 1) k (cut_all more (more + (days + 1)) m)
          ≡ series_of blank (days + 1) k m'
    cut_window k m m' w = series_of-cut_all blank more (days + 1) k m w.full ∙ w.ends k

  subst2 :
      {m n m' n' : List (String × List StatusCounts)}
      → m ≡ n
      → m' ≡ n'
      → IsWindow no_counts n n'
      → IsWindow no_counts m m'
  subst2 {n} {m'} e e' w =
      subst (λ x. IsWindow no_counts x m') (sym e) (subst (λ y. IsWindow no_counts n y) (sym e') w)

  pub probes-IsWindow :
      (rows : List ProbeRow) (m m' : List (String × List ProbeDay))
      → IsWindow no_probes m m'
      → IsWindow no_probes
          (record_probes long (more + (days + 1)) rows m)
          (record_probes short (days + 1) rows m')
  unfolding record_probes
  probes-IsWindow [] m m' w = w
  probes-IsWindow (r ∷ rows) m m' w =
      probes-IsWindow rows _ _ (record_day-IsWindow no_probes r.day r.host r.probes m m' w)

  pub countries-IsWindow :
      (value : CountryRow → ℕ) (rows : List CountryRow) (m m' : List (String × List ℕ))
      → IsWindow {A = ℕ} 0 m m'
      → IsWindow {A = ℕ} 0
          (record_countries long (more + (days + 1)) value rows m)
          (record_countries short (days + 1) value rows m')
  unfolding record_countries
  countries-IsWindow value [] m m' w = w
  countries-IsWindow value (r ∷ rows) m m' w =
      countries-IsWindow value rows _ _ (record_day-IsWindow 0 r.day r.country (value r) m m' w)

  pub traffic-IsWindow :
      (rows : List TrafficRow) (m m' : Traffic)
      → ((host : String) → IsWindow no_counts (by_endpoint host m) (by_endpoint host m'))
      → (host : String)
      → IsWindow no_counts
          (by_endpoint host (record_all_traffic long (more + (days + 1)) rows m))
          (by_endpoint host (record_all_traffic short (days + 1) rows m'))
  unfolding record_all_traffic
  traffic-IsWindow [] m m' w host = w host
  traffic-IsWindow (r ∷ rows) m m' w host = traffic-IsWindow rows _ _ step host
    where
      step :
          (h : String)
          → IsWindow no_counts
              (by_endpoint h (record_traffic long (more + (days + 1)) r m))
              (by_endpoint h (record_traffic short (days + 1) r m'))
      step h =
          let e = by_endpoint-record_traffic long (more + (days + 1)) r h m in
          let e' = by_endpoint-record_traffic short (days + 1) r h m' in
          elim (Bool-cases (str_eq r.host h)) [
            | inl q ↦ subst2 (rw q at e) (rw q at e') (
                record_day-IsWindow no_counts r.day r.endpoint r.counts (by_endpoint h m)
                  (by_endpoint h m') (w h))
            | inr q ↦ subst2 (rw q at e) (rw q at e') (w h)
          ]

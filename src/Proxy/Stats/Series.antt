-- ===== src/Proxy/Stats/Series.antt =====
-- cmd/proxy/stats.go: one series per key. What a table of series reads as, row by row, and how a
-- series of many days is cut to the last ones.
use debuginfod_pwndbg_re.Prelude.{
  ℕ, zero, suc, ◌+◌, ◌-◌, ◌≤◌, ◌<◌, Bool, true, false, String, str_eq, eq_iff, List, [], ◌∷◌,
  Option, none, some, lookup, lookup-put, length, drop, ltb, ◌≡◌, refl, sym, ap, ◌∙◌, subst, arith,
  Bool-cases, Option-cases, inl, inr, ltb→lt, if◌then◌else◌,
}
use mathlib.Core.Option.{some-injective}
use mathlib.Core.Option
use debuginfod_pwndbg_re.Proxy.Stats.{
  replicate, set, or_else, set_day, record_day, day_index, cut_series, cut_all,
}

module _ {A : Type 0} where
  -- What a key reads as: a key that never came is a series of blanks.
  abbrev pub series_of : A → ℕ → String → List (String × List A) → List A
  series_of blank n key m = or_else (replicate n blank) (lookup key m)

  pub length-set : (xs : List A) (i : ℕ) (v : A) → length (set xs i v) ≡ length xs
  unfolding set
  length-set [] i v = refl
  length-set (x ∷ xs) zero v = refl
  length-set (x ∷ xs) (suc i) v = ap suc (length-set xs i v)

  pub length-replicate : (n : ℕ) (x : A) → length (replicate n x) ≡ n
  unfolding replicate
  length-replicate zero x = refl
  length-replicate (suc n) x = ap suc (length-replicate n x)

  pub length-set_day : (o : Option ℕ) (v : A) (xs : List A) → length (set_day o v xs) ≡ length xs
  unfolding set_day
  length-set_day none v xs = refl
  length-set_day (some i) v xs = length-set xs i v

  pub drop-replicate : (k n : ℕ) (x : A) → drop k (replicate (k + n) x) ≡ replicate n x
  unfolding replicate
  drop-replicate zero n x = ap (λ m. replicate m x) (omega arith)
  drop-replicate (suc k) n x =
      let step : suc k + n ≡ suc (k + n) = omega arith in rw step (drop-replicate k n x)

  -- A value behind the cut moves with it, and one before it goes.
  pub drop-set : (k i : ℕ) (xs : List A) (v : A) → drop k (set xs (k + i) v) ≡ set (drop k xs) i v
  unfolding set
  drop-set zero i xs v = ap (λ j. set xs j v) (omega arith)
  drop-set (suc k) i [] v = refl
  drop-set (suc k) i (x ∷ xs) v =
      let step : suc k + i ≡ suc (k + i) = omega arith in rw step (drop-set k i xs v)

  pub drop-set_before : (k i : ℕ) (xs : List A) (v : A) → i < k → drop k (set xs i v) ≡ drop k xs
  unfolding set
  drop-set_before zero i xs v h = elim h [ ]
  drop-set_before (suc k) i [] v h = refl
  drop-set_before (suc k) zero (x ∷ xs) v h = refl
  drop-set_before (suc k) (suc i) (x ∷ xs) v h = drop-set_before k i xs v (omega arith)

pub day_index_in :
    (end days d : ℕ) → end ≤ d + days → d ≤ end → day_index end days d ≡ some (d + days - end)
unfolding day_index
day_index_in end days d h k = ground arith

day_index_early : (end days d : ℕ) → d + days < end → day_index end days d ≡ none
unfolding day_index
day_index_early end days d h = ground arith

day_index_late : (end days d : ℕ) → end < d → day_index end days d ≡ none
unfolding day_index
day_index_late end days d h = ground arith

module _ {A : Type 0} where
  -- The positions of a day in a window of `days + more + 1` days and in its last `days + 1`.
  pub drop-set_day :
      (end days more d : ℕ) (v : A) (xs : List A)
      → drop more (set_day (day_index end (days + more) d) v xs)
        ≡ set_day (day_index end days d) v (drop more xs)
  unfolding set_day
  drop-set_day end days more d v xs = elim (Bool-cases (ltb end d)) [
    | inl late ↦
        rw
          (
            day_index_late end (days + more) d (ltb→lt end d late),
            day_index_late end days d (ltb→lt end d late),
          )
          refl
    | inr due ↦ elim (Bool-cases (ltb (d + days) end)) [
      | inr inside ↦
          let at : d + (days + more) - end ≡ more + (d + days - end) = ground (arith, inside) in
          rw
            (
              day_index_in end (days + more) d (ground (arith, inside)) (ground (arith, due)),
              day_index_in end days d (ground (arith, inside)) (ground (arith, due)),
              at,
            )
            (drop-set more (d + days - end) xs v)
      | inl before ↦ elim (Bool-cases (ltb (d + (days + more)) end)) [
        | inl early ↦
            rw
              (
                day_index_early end (days + more) d (ltb→lt _ _ early),
                day_index_early end days d (ltb→lt _ _ before),
              )
              refl
        | inr old ↦
            rw
              (
                day_index_in end (days + more) d (ground (arith, old)) (ground (arith, due)),
                day_index_early end days d (ltb→lt _ _ before),
              )
              (drop-set_before more (d + (days + more) - end) xs v (ground (arith, old, before)))
      ]
    ]
  ]

  -- Reading a table behind one row.
  pub series_of-record_day :
      (blank : A) (n : ℕ) (o : Option ℕ) (key k : String) (v : A) (m : List (String × List A))
      → series_of blank n k (record_day blank n o key v m)
        ≡ (if str_eq key k then set_day o v (series_of blank n k m) else series_of blank n k m)
  unfolding record_day set_day
  series_of-record_day blank n none key k v m = if_same (str_eq key k)
    where
      if_same :
          (b : Bool)
          → series_of blank n k m ≡ (if b then series_of blank n k m else series_of blank n k m)
      if_same true = refl
      if_same false = refl
  series_of-record_day blank n (some i) key k v m = elim (Bool-cases (str_eq key k)) [
    | inl e ↦
        let same = (eq_iff key k).0 e in
        rw (lookup-put key k (set (series_of blank n key m) i v) m, e)
          (ap (λ j. set (series_of blank n j m) i v) same)
    | inr e ↦ rw (lookup-put key k (set (series_of blank n key m) i v) m, e) refl
  ]

  -- Every series of a table has the length of the window.
  abbrev pub HaveLength : ℕ → List (String × List A) → Type 0
  HaveLength n m = (k : String) (xs : List A) → lookup k m ≡ some xs → length xs ≡ n

  pub lookup-cut_all :
      (from n : ℕ) (k : String) (m : List (String × List A))
      → lookup k (cut_all from n m) ≡ Option.map (cut_series from n) (lookup k m)
  unfolding lookup
  lookup-cut_all from n k [] = refl
  lookup-cut_all from n k (e ∷ m) = ground (arith, lookup-cut_all from n k m)

  pub cut_series_lem :
      (from n : ℕ) (xs : List A) → length xs ≡ n → cut_series from n xs ≡ drop from xs
  unfolding cut_series
  cut_series_lem from n xs e = ground (arith, e)

  -- A cut table reads as the cut of what the table reads as.
  pub series_of-cut_all :
      (blank : A) (more n : ℕ) (k : String) (m : List (String × List A))
      → HaveLength (more + n) m
      → series_of blank n k (cut_all more (more + n) m) ≡ drop more (series_of blank (more + n) k m)
  series_of-cut_all blank more n k m all = elim (Option-cases (lookup k m)) [
    | inl e ↦ rw (lookup-cut_all more (more + n) k m, e) (sym (drop-replicate more n blank))
    | inr (xs, e) ↦
        rw (lookup-cut_all more (more + n) k m, e) (cut_series_lem more (more + n) xs (all k xs e))
  ]

  length-series_of :
      (blank : A) (n : ℕ) (k : String) (m : List (String × List A))
      → HaveLength n m
      → length (series_of blank n k m) ≡ n
  length-series_of blank n k m all = elim (Option-cases (lookup k m)) [
    | inl e ↦ rw e (length-replicate n blank)
    | inr (xs, e) ↦ rw e (all k xs e)
  ]

  pub record_day-HaveLength :
      (blank : A) (n : ℕ) (o : Option ℕ) (key : String) (v : A) (m : List (String × List A))
      → HaveLength n m
      → HaveLength n (record_day blank n o key v m)
  unfolding record_day
  record_day-HaveLength blank n none key v m all k xs e = all k xs e
  record_day-HaveLength blank n (some i) key v m all k xs e = elim (Bool-cases (str_eq key k)) [
    | inl same ↦
        let found : some (set (series_of blank n key m) i v) ≡ some xs =
          rw (lookup-put key k (set (series_of blank n key m) i v) m, same) at e in
        subst (λ ys. length ys ≡ n) (some-injective _ _ found)
          (length-set (series_of blank n key m) i v ∙ length-series_of blank n key m all)
    | inr other ↦ all k xs (rw (lookup-put key k (set (series_of blank n key m) i v) m, other) at e)
  ]

-- ===== src/SrcIndex/Best.antt =====
-- Find (srcindex/srcindex.go) returns the best match.
use debuginfod_pwndbg_re.Prelude.{
  ℕ, zero, suc, ◌≤◌, ◌<◌, Bool, true, false, List, [], ◌∷◌, none, some, Bytes, bytes_eq,
  bytes_eq_sound, bytes_eq_refl, length, take, All, All-map, Member, ◌≡◌, refl, subst, ◌⊎◌, inl,
  inr, arith, Bool-cases,
}
use mathlib.Core.List.{cons-ne-nil}
use debuginfod_pwndbg_re.SrcIndex.{
  Entry, Index, common_prefix_len, replaces, choose, find, reversed_path,
}

-- The common prefix is one, and it cannot be made longer.
common_prefix_len_lem :
    (a b : List Bytes)
    → (take (common_prefix_len a b) a ≡ take (common_prefix_len a b) b)
      × ((n : ℕ) → n ≤ length a → take n a ≡ take n b → n ≤ common_prefix_len a b)
unfolding common_prefix_len
common_prefix_len_lem [] b = (take-zero b, λ n h e. h)
  where
    take-zero : (b : List Bytes) → take 0 [] ≡ take 0 b
    take-zero b = refl
common_prefix_len_lem (x ∷ a) [] = (refl, short)
  where
    short : (n : ℕ) → n ≤ suc (length a) → take n (x ∷ a) ≡ take n [] → n ≤ 0
    short zero h e = omega arith
    short (suc n) h e = absurd (cons-ne-nil _ _ e)
common_prefix_len_lem (x ∷ a) (y ∷ b) =
    let longest = (common_prefix_len_lem a b).1 in
    elim (Bool-cases (bytes_eq x y)) [
      | inl e ↦ rw e (cc (bytes_eq_sound x y e, (common_prefix_len_lem a b).0), longer longest)
      | inr e ↦ rw e (refl, differ e)
    ]
  where
    longer :
        ((n : ℕ) → n ≤ length a → take n a ≡ take n b → n ≤ common_prefix_len a b)
        → (n : ℕ) → n ≤ suc (length a)
        → take n (x ∷ a) ≡ take n (y ∷ b)
        → n ≤ suc (common_prefix_len a b)
    longer longest zero h e = omega arith
    longer longest (suc n) h e =
        let tails : take n a ≡ take n b = cc in omega (arith, longest n (omega arith) tails)

    differ :
        bytes_eq x y ≡ false
        → (n : ℕ) → n ≤ suc (length a)
        → take n (x ∷ a) ≡ take n (y ∷ b)
        → n ≤ 0
    differ no_match zero h e = omega arith
    differ no_match (suc n) h e =
        let heads : x ≡ y = cc in absurd (ground (arith, bytes_eq_refl x, heads))

-- `n` is the number of components that two paths share from the end on, where both are given
-- from the end on: they agree on so many, and on no more.
pub record IsSharedLen (a b : List Bytes) (n : ℕ) : Type 0 where
  pub within_left : n ≤ length a
  pub within_right : n ≤ length b
  pub agree : take n a ≡ take n b
  pub longest : (m : ℕ) → m ≤ length a → m ≤ length b → take m a ≡ take m b → m ≤ n

common_prefix_len-le :
    (a b : List Bytes) → (common_prefix_len a b ≤ length a) × (common_prefix_len a b ≤ length b)
unfolding common_prefix_len
common_prefix_len-le [] b = (omega arith, omega arith)
common_prefix_len-le (x ∷ a) [] = (omega arith, omega arith)
common_prefix_len-le (x ∷ a) (y ∷ b) = ground (arith, common_prefix_len-le a b)

common_prefix_len-IsSharedLen : (a b : List Bytes) → IsSharedLen a b (common_prefix_len a b)
common_prefix_len-IsSharedLen a b = record {
  within_left = (common_prefix_len-le a b).0;
  within_right = (common_prefix_len-le a b).1;
  agree = (common_prefix_len_lem a b).0;
  longest = λ m h _ e. (common_prefix_len_lem a b).1 m h e;
}

IsSharedLen-unique : (a b : List Bytes) (n : ℕ) → IsSharedLen a b n → n ≡ common_prefix_len a b
IsSharedLen-unique a b n s =
    let c = common_prefix_len-IsSharedLen a b in
    let up = c.longest n s.within_left s.within_right s.agree in
    let down = s.longest (common_prefix_len a b) c.within_left c.within_right c.agree in
    omega (arith, up, down)

-- A match that shares `sc` components is better than one that shares `sb`: it shares more; or as
-- many, from a tree of higher priority; or that too, and it lies less deep.
abbrev pub Better : ℕ → Entry → ℕ → Entry → Type 0
Better sc c sb b =
    (sb < sc)
    ⊎ ((sb ≡ sc) × (c.prio < b.prio))
    ⊎ ((sb ≡ sc) × (c.prio ≡ b.prio) × (length c.parts < length b.parts))

-- `c` beats `b` as a match for `want`, by the components that each shares with it.
abbrev pub Beats : List Bytes → Entry → Entry → Type 0
Beats want c b =
    (sc : ℕ) × (sb : ℕ) × IsSharedLen c.parts want sc
    × IsSharedLen b.parts want sb
    × Better sc c sb b

beats : List Bytes → Entry → Entry → Bool
beats want c b = replaces (common_prefix_len c.parts want) c (common_prefix_len b.parts want) b

Better-beats :
    (want : List Bytes) (c b : Entry)
    → Better (common_prefix_len c.parts want) c (common_prefix_len b.parts want) b
    → beats want c b ≡ true
unfolding beats replaces
Better-beats want c b h = ground arith

-- `b` stays in place if no one beats it among those that it has met.
unbeaten_trans :
    (want : List Bytes) (a b c : Entry)
    → beats want a b ≡ false
    → beats want b c ≡ false
    → beats want a c ≡ false
unfolding beats replaces
unbeaten_trans want a b c h k = ground arith

beats_asymm : (want : List Bytes) (a b : Entry) → beats want a b ≡ true → beats want b a ≡ false
unfolding beats replaces
beats_asymm want a b h = ground arith

beats_self : (want : List Bytes) (a : Entry) → beats want a a ≡ false
unfolding beats replaces
beats_self want a = ground arith

-- What `choose` makes of the candidates when it holds `b` already.
chosen :
    (want : List Bytes) (b : Entry) (cands : List Entry)
    → (best : Entry) × (choose want (some b) cands ≡ some best)
      × ((b ≡ best) ⊎ Member best cands)
      × (beats want b best ≡ false)
      × All (λ c. beats want c best ≡ false) cands
unfolding choose
chosen want b [] = (b, refl, inl refl, beats_self want b, tt)
chosen want b (c ∷ rest) = elim (Bool-cases (beats want c b)) [
  | inl wins ↦
      let (best, eq, origin, old, all) = chosen want c rest in
      (
        best,
        keep_new wins eq,
        inr origin,
        unbeaten_trans want b c best (beats_asymm want c b wins) old,
        (old, all),
      )
  | inr loses ↦
      let (best, eq, origin, old, all) = chosen want b rest in
      (
        best,
        keep_old loses eq,
        elim origin [ inl e ↦ inl e | inr m ↦ inr (inr m) ],
        old,
        (unbeaten_trans want c b best loses old, all),
      )
]
  where
    keep_new :
        beats want c b ≡ true
        → {best : Entry} → choose want (some c) rest ≡ some best
        → choose want (some b) (c ∷ rest) ≡ some best
    keep_new e eq = unfold beats in rw e eq

    keep_old :
        beats want c b ≡ false
        → {best : Entry} → choose want (some b) rest ≡ some best
        → choose want (some b) (c ∷ rest) ≡ some best
    keep_old e eq = unfold beats in rw e eq

-- The best of some entries: one of them, and none of them beats it.
pub record IsBest (want : List Bytes) (cands : List Entry) (b : Entry) : Type 0 where
  pub found : Member b cands
  pub unbeaten : All (λ c. ¬ Beats want c b) cands

unbeaten : (want : List Bytes) (c b : Entry) → beats want c b ≡ false → ¬ Beats want c b
unbeaten want c b h (sc, sb, shares, shared, better) =
    let ec = IsSharedLen-unique c.parts want sc shares in
    let eb = IsSharedLen-unique b.parts want sb shared in
    let at_left : Better (common_prefix_len c.parts want) c sb b =
      subst (λ n. Better n c sb b) ec better in
    let at_both : Better (common_prefix_len c.parts want) c (common_prefix_len b.parts want) b =
      subst (λ n. Better (common_prefix_len c.parts want) c n b) eb at_left in
    let wins : beats want c b ≡ true = Better-beats want c b at_both in cc

-- For a request that names a file, the search finds nothing only if no indexed file has that
-- basename, and otherwise it returns one of the files with that basename that no other of them
-- beats: most trailing components shared with the request win wherever the file lies, the tree's
-- priority decides among equals, and then the depth.
pub find-IsBest :
    (ix : Index) (req_path : Bytes) (name : Bytes) (dirs : List Bytes)
    → reversed_path req_path ≡ name ∷ dirs
    → ((find ix req_path ≡ none) × (ix.by_base name ≡ []))
      ⊎ ((b : Entry) × (find ix req_path ≡ some b) × IsBest (name ∷ dirs) (ix.by_base name) b)
unfolding find
find-IsBest ix req_path name dirs h = go (ix.by_base name) refl
  where
    go :
        (cands : List Entry)
        → ix.by_base name ≡ cands
        → ((find ix req_path ≡ none) × (ix.by_base name ≡ []))
          ⊎ ((b : Entry) × (find ix req_path ≡ some b) × IsBest (name ∷ dirs) (ix.by_base name) b)
    go [] e = inl (rw (h, find) (rw e (unfold choose in refl)), e)
    go (c ∷ rest) e =
        let (b, eq, origin, first, all) = chosen (name ∷ dirs) c rest in
        inr (
          b,
          rw (h, find) (rw e (unfold choose in eq)),
          rw e (record {
            found = origin;
            unbeaten = (
              unbeaten (name ∷ dirs) c b first,
              All-map (λ x k. unbeaten (name ∷ dirs) x b k) rest all,
            );
          }),
        )

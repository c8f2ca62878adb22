-- ===== src/Prelude/Texts.antt =====
-- Texts that the program takes apart, as their bytes.
use Prim.Native.Nat.{ℕ}
use Prim.Native.Char.{code}
use Prim.Native.String.{String}
use mathlib.Core.Path.{◌≡◌, refl, sym, ap, subst, ◌∙◌}
use mathlib.Core.Logic.{◌↔◌, ◌≢◌, ◌⊎◌, inl, inr}
use mathlib.Core.Bool.{Bool, true, false, ◌&&◌, ◌||◌}
use mathlib.Core.List.{
  List, [], ◌∷◌, ◌++◌, reverse, append-nil, append_assoc, reverse-append, reverse-reverse,
  reverse-cons,
}
use native.Mathlib.Omega.{arith}
use debuginfod_pwndbg_re.Prelude.Tests.{◌==◌, if◌then◌else◌, Bool-cases}
use debuginfod_pwndbg_re.Prelude.Lists.{All}

abbrev pub Bytes : Type 0
Bytes = List ℕ

-- The code points of a literal; these are its bytes when the text is ASCII.
abbrev pub codes : String → Bytes
codes String.[] = []
codes (String.◌∷◌ c s) = code c ∷ codes s

unfoldable pub bytes_eq : Bytes → Bytes → Bool
bytes_eq [] [] = true
bytes_eq [] (b ∷ bs) = false
bytes_eq (a ∷ as') [] = false
bytes_eq (a ∷ as') (b ∷ bs) = a == b && bytes_eq as' bs

pub bytes_eq_sound : (a b : Bytes) → bytes_eq a b ≡ true → a ≡ b
unfolding bytes_eq
bytes_eq_sound [] [] h = refl
bytes_eq_sound [] (b ∷ bs) h = cc
bytes_eq_sound (a ∷ as') [] h = cc
bytes_eq_sound (a ∷ as') (b ∷ bs) h = ground (arith, bytes_eq_sound as' bs)

pub bytes_eq_refl : (a : Bytes) → bytes_eq a a ≡ true
unfolding bytes_eq
bytes_eq_refl [] = refl
bytes_eq_refl (a ∷ as') = ground (arith, bytes_eq_refl as')

pub bytes_eq_iff : (a b : Bytes) → (bytes_eq a b ≡ true) ↔ (a ≡ b)
bytes_eq_iff a b = (bytes_eq_sound a b, λ e. ground (arith, bytes_eq_refl a))

-- `strings.HasPrefix(s, p)`
unfoldable pub has_prefix : Bytes → Bytes → Bool
has_prefix s [] = true
has_prefix [] (c ∷ p) = false
has_prefix (b ∷ s) (c ∷ p) = b == c && has_prefix s p

-- `strings.HasSuffix(s, p)`
unfoldable pub has_suffix : Bytes → Bytes → Bool
has_suffix [] p = bytes_eq [] p
has_suffix (b ∷ s) p = bytes_eq (b ∷ s) p || has_suffix s p

-- `strings.Contains(s, p)`
unfoldable pub contains : Bytes → Bytes → Bool
contains [] p = has_prefix [] p
contains (b ∷ s) p = has_prefix (b ∷ s) p || contains s p

-- What stands behind the last `sep`, or the whole text.
behind_last : ℕ → Bytes → Bytes → Bytes
behind_last sep cur [] = cur
behind_last sep cur (c ∷ s) = behind_last sep (if c == sep then [] else cur ++ c ∷ []) s

unfoldable pub drop_leading : ℕ → Bytes → Bytes
drop_leading sep [] = []
drop_leading sep (c ∷ s) = let rest = drop_leading sep s in if c == sep then rest else c ∷ s

-- `filepath.Base(p)`
unfoldable pub base : Bytes → Bytes
unfolding behind_last drop_leading
base [] = codes "."
base (c ∷ s) = elim (reverse (drop_leading b'/' (reverse (c ∷ s)))) [
  | [] ↦ codes "/"
  | d ∷ t ↦ behind_last b'/' [] (d ∷ t)
]

-- The last component of a path.
module _ (sep : ℕ) where
  behind_last_lem : (p cur h : Bytes) → behind_last sep cur (p ++ sep ∷ h) ≡ behind_last sep [] h
  unfolding behind_last
  behind_last_lem [] cur h = ground arith
  behind_last_lem (c ∷ p) cur h = behind_last_lem p (if c == sep then [] else cur ++ c ∷ []) h

  behind_last_all : (cur h : Bytes) → All (λ c. c ≢ sep) h → behind_last sep cur h ≡ cur ++ h
  unfolding behind_last
  behind_last_all cur [] _ = sym (append-nil cur)
  behind_last_all cur (c ∷ h) (n, ns) =
      ground (arith, behind_last_all (cur ++ c ∷ []) h ns, append_assoc cur (c ∷ []) h)

-- A text that is not empty ends in a byte.
snoc : (h : Bytes) → h ≢ [] → (h0 : Bytes) × (d : ℕ) × (h ≡ h0 ++ d ∷ [])
snoc [] n = absurd (n refl)
snoc (c ∷ []) n = ([], c, refl)
snoc (c ∷ d ∷ h) n = let (h0, e, eq) = snoc (d ∷ h) (cc) in (c ∷ h0, e, ap (◌∷◌ c) eq)

All-last : (P : ℕ → Type 0) (h0 : Bytes) (d : ℕ) → All P (h0 ++ d ∷ []) → P d
All-last P [] d (p, _) = p
All-last P (c ∷ h0) d (_, ps) = All-last P h0 d ps

drop_trailing :
    (s : Bytes) (d : ℕ)
    → d ≢ b'/'
    → reverse (drop_leading b'/' (reverse (s ++ d ∷ []))) ≡ s ++ d ∷ []
unfolding drop_leading
drop_trailing s d n =
    let e : (d == b'/') ≡ false = ground arith in
    rw reverse-append (rw e (rw (reverse-cons d (reverse s)) (rw (reverse-reverse s) refl)))

base-snoc : (q : Bytes) (d : ℕ) → d ≢ b'/' → base (q ++ d ∷ []) ≡ behind_last b'/' [] (q ++ d ∷ [])
unfolding base
base-snoc [] d n = rw (drop_trailing [] d n, base) refl
base-snoc (c ∷ q) d n = rw (drop_trailing (c ∷ q) d n, base) refl

pub base_lem : (p h : Bytes) → h ≢ [] → All (λ c. c ≢ b'/') h → base (p ++ b'/' ∷ h) ≡ h
base_lem p h n all =
    let (h0, d, eq) = snoc h n in
    let last : d ≢ b'/' = All-last (λ c. c ≢ b'/') h0 d (subst (All (λ c. c ≢ b'/')) eq all) in
    let whole : p ++ b'/' ∷ h ≡ (p ++ b'/' ∷ h0) ++ d ∷ [] =
      ap (λ (x : Bytes). p ++ b'/' ∷ x) eq ∙ sym (append_assoc p (b'/' ∷ h0) (d ∷ [])) in
    ap base whole
    ∙ base-snoc (p ++ b'/' ∷ h0) d last
    ∙ ap (behind_last b'/' []) (sym whole)
    ∙ behind_last_lem b'/' p [] h
    ∙ behind_last_all b'/' [] h all

-- A text without a separator is its own last component, and a last component has none.
pub base_plain : (h : Bytes) → h ≢ [] → All (λ c. c ≢ b'/') h → base h ≡ h
base_plain h n all =
    let (h0, d, eq) = snoc h n in
    let last : d ≢ b'/' = All-last (λ c. c ≢ b'/') h0 d (subst (All (λ c. c ≢ b'/')) eq all) in
    ap base eq
    ∙ base-snoc h0 d last
    ∙ ap (behind_last b'/' []) (sym eq)
    ∙ behind_last_all b'/' [] h all

All-snoc : (P : ℕ → Type 0) (s : Bytes) (c : ℕ) → All P s → P c → All P (s ++ c ∷ [])
All-snoc P [] c _ p = (p, tt)
All-snoc P (b ∷ s) c (q, qs) p = (q, All-snoc P s c qs p)

behind_last-free :
    (sep : ℕ) (cur s : Bytes) → All (λ c. c ≢ sep) cur → All (λ c. c ≢ sep) (behind_last sep cur s)
unfolding behind_last
behind_last-free sep cur [] free = free
behind_last-free sep cur (c ∷ s) free = elim (Bool-cases (c == sep)) [
  | inl e ↦ rw e (behind_last-free sep [] s tt)
  | inr e ↦ rw e (
      behind_last-free sep (cur ++ c ∷ []) s
        (All-snoc (λ x. x ≢ sep) cur c free (ground (arith, e))))
]

pub base_cases : (s : Bytes) → (base s ≡ codes "/") ⊎ All (λ c. c ≢ b'/') (base s)
unfolding base
base_cases [] = inr (ground arith)
base_cases (c ∷ s) =
    elim (reverse (drop_leading b'/' (reverse (c ∷ s))))
      as (λ t.
        ((elim t [ [] ↦ codes "/" | d ∷ r ↦ behind_last b'/' [] (d ∷ r) ]) ≡ codes "/")
        ⊎ All (λ x. x ≢ b'/') (elim t [ [] ↦ codes "/" | d ∷ r ↦ behind_last b'/' [] (d ∷ r) ])) [
          | [] ↦ inl refl
          | d ∷ r ↦ inr (behind_last-free b'/' [] (d ∷ r) tt)
        ]

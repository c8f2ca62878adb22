-- ===== src/DebUnpack/Names.antt =====
-- cmd/deb-unpack: which names can become a path. safeKey and the patterns of main.go, and the names
-- in a .dsc file.
use debuginfod_pwndbg_re.Prelude.{
  ℕ, Bool, true, false, ◌&&◌, List, [], ◌∷◌, ◌++◌, Option, none, some, Bytes, codes, bytes_eq,
  bytes_eq_sound, bytes_eq_refl, base, base_plain, base_cases, All, All-append, has_prefix, ◌==◌,
  ◌≡◌, ◌≢◌, ◌↔◌, ◌⊎◌, inl, inr, refl, sym, subst, ◌∙◌, arith, Bool-cases, if◌then◌else◌,
}
use mathlib.Core.Option.{some-injective}
use debuginfod_pwndbg_re.DebUnpack.{
  all_chars, is_name, is_package, is_version, is_component, UnpackRequest, is_valid, tree_name,
  starts_with_dot, safe_key, split_on, fields, file_line, stanza, files_from_dsc,
}

-- A single name without a slash that is not hidden.
abbrev pub IsPlain : Bytes → Type 0
IsPlain n = (n ≢ []) × All (λ c. c ≢ b'/') n × (starts_with_dot n ≡ false)

-- A plain name, or the root itself.
abbrev pub IsPlainOrRoot : Bytes → Type 0
IsPlainOrRoot n = (n ≡ codes "/") ⊎ IsPlain n

own_base : (n : Bytes) → n ≡ base n → (n ≡ codes "/") ⊎ All (λ c. c ≢ b'/') n
own_base n e = elim (base_cases n) [
  | inl r ↦ inl (e ∙ r)
  | inr free ↦ inr (subst (All (λ c. c ≢ b'/')) (sym e) free)
]

checked_name :
    (n : Bytes) → n ≢ [] → bytes_eq n (base n) ≡ true → starts_with_dot n ≡ false → IsPlainOrRoot n
checked_name n filled e visible = elim (own_base n (bytes_eq_sound n (base n) e)) [
  | inl r ↦ inl r
  | inr free ↦ inr (filled, free, visible)
]

safe_key_parts :
    (c n : Bytes)
    → safe_key c n ≡ true
    → (is_component c ≡ true)
      × (bytes_eq n [] ≡ false)
      × (bytes_eq n (base n) ≡ true)
      × (starts_with_dot n ≡ false)
unfolding safe_key
safe_key_parts c n h = ground arith

root_base : bytes_eq (codes "/") (base (codes "/")) ≡ true
unfolding base bytes_eq
root_base = refl

own_base_test : (n : Bytes) → IsPlainOrRoot n → bytes_eq n (base n) ≡ true
own_base_test n (inl r) = subst (λ m. bytes_eq m (base m) ≡ true) (sym r) root_base
own_base_test n (inr p) = rw (base_plain n p.0 p.1) (bytes_eq_refl n)

filled : (n : Bytes) → n ≢ [] → bytes_eq n [] ≡ false
unfolding bytes_eq
filled [] h = absurd (h refl)
filled (c ∷ n) h = refl

filled_test : (n : Bytes) → bytes_eq n [] ≡ false → n ≢ []
unfolding bytes_eq
filled_test [] h = cc
filled_test (c ∷ n) h = cc

root_filled : (n : Bytes) → n ≡ codes "/" → (bytes_eq n [] ≡ false) × (starts_with_dot n ≡ false)
unfolding bytes_eq
root_filled n r = rw r (refl, refl)

visible : (n : Bytes) → IsPlainOrRoot n → (bytes_eq n [] ≡ false) × (starts_with_dot n ≡ false)
visible n (inl r) = root_filled n r
visible n (inr p) = (filled n p.0, p.2)

-- The keys that handleDelete accepts, exactly: a known component, and a name that is plain, or the
-- root itself.
pub safe_key_iff :
    (c n : Bytes) → (safe_key c n ≡ true) ↔ ((is_component c ≡ true) × IsPlainOrRoot n)
unfolding safe_key
safe_key_iff c n = (
  (λ h. let p = safe_key_parts c n h in (p.0, checked_name n (filled_test n p.1) p.2 p.3)),
  (λ h. let v = visible n h.1 in rw (h.0, v.0, own_base_test n h.1, v.1) refl),
)

all_chars-free :
    (p : ℕ → Bool) (s : Bytes)
    → ((c : ℕ) → p c ≡ true → c ≢ b'/')
    → all_chars p s ≡ true
    → All (λ c. c ≢ b'/') s
unfolding all_chars
all_chars-free p [] free h = tt
all_chars-free p (c ∷ s) free h = elim (Bool-cases (p c)) [
  | inl e ↦ (free c e, all_chars-free p s free (rw e at h))
  | inr e ↦ absurd (cc (rw e at h))
]

-- What a name of one of the two patterns is made of.
is_name-IsPlain :
    (first others : ℕ → Bool) (least : ℕ) (s : Bytes)
    → ((c : ℕ) → first c ≡ true → (c ≢ b'/') × (c ≢ b'.'))
    → ((c : ℕ) → others c ≡ true → c ≢ b'/')
    → is_name first others least s ≡ true
    → IsPlain s
unfolding is_name
is_name-IsPlain first others least [] f o h = cc
is_name-IsPlain first others least (c ∷ s) f o h = elim (Bool-cases (first c)) [
  | inr e ↦ absurd (cc (rw e at h))
  | inl e ↦ elim (Bool-cases (all_chars others s)) [
    | inr e' ↦ absurd (cc (rw (e, e') at h))
    | inl e' ↦ ((cc), ((f c e).0, all_chars-free others s o e'), ground (arith, (f c e).1))
  ]
]

source-IsPlain : (s : Bytes) → is_package s ≡ true → IsPlain s
source-IsPlain s h =
    is_name-IsPlain _ _ 1 s (λ c e. (ground arith, ground arith)) (λ c e. ground arith) h

version-IsPlain : (s : Bytes) → is_version s ≡ true → IsPlain s
version-IsPlain s h =
    is_name-IsPlain _ _ 0 s (λ c e. (ground arith, ground arith)) (λ c e. ground arith) h

join-IsPlain : (a b : Bytes) → IsPlain a → IsPlain b → IsPlain (a ++ b'_' ∷ b)
join-IsPlain [] b p q = absurd (p.0 refl)
join-IsPlain (c ∷ a) b p q =
    ((cc), (p.1.0, All-append (λ x. x ≢ b'/') a (b'_' ∷ b) p.1.1 ((omega arith), q.1)), p.2)

is_valid-parts :
    (r : UnpackRequest)
    → is_valid r ≡ true
    → (is_package r.source ≡ true)
      × (is_version r.version ≡ true)
      × (is_component r.component ≡ true)
unfolding is_valid
is_valid-parts r h = ground arith

pub tree_name-IsPlain : (r : UnpackRequest) → is_valid r ≡ true → IsPlain (tree_name r)
unfolding tree_name
tree_name-IsPlain r h =
    let p = is_valid-parts r h in
    join-IsPlain r.source r.version (source-IsPlain r.source p.0) (version-IsPlain r.version p.1)

-- Every tree that a request can unpack can also be deleted: the key of a valid request is one that
-- handleDelete accepts.
tree_name-safe_key :
    (r : UnpackRequest) → is_valid r ≡ true → safe_key r.component (tree_name r) ≡ true
tree_name-safe_key r h =
    (safe_key_iff r.component (tree_name r)).1 ((is_valid-parts r h).2, inr (tree_name-IsPlain r h))

own_base-filled : (n : Bytes) → bytes_eq n (base n) ≡ true → n ≢ []
unfolding base bytes_eq
own_base-filled [] h = cc
own_base-filled (c ∷ n) h = cc

dot_prefix : (n : Bytes) → has_prefix n (codes ".") ≡ starts_with_dot n
unfolding has_prefix
dot_prefix [] = refl
dot_prefix (c ∷ n) = ground arith

file_line-plain :
    (words : List Bytes) (rest : Option (List Bytes))
    → ((names : List Bytes) → rest ≡ some names → All IsPlainOrRoot names)
    → (names : List Bytes) → file_line words rest ≡ some names
    → All IsPlainOrRoot names
unfolding file_line
file_line-plain [] rest ih names h = ih names h
file_line-plain (a ∷ []) rest ih names h = ih names h
file_line-plain (a ∷ b ∷ []) rest ih names h = ih names h
file_line-plain (a ∷ b ∷ n ∷ []) none ih names h = cc
file_line-plain (a ∷ b ∷ n ∷ []) (some behind) ih names h =
    elim (Bool-cases (bytes_eq n (base n))) [
      | inr e ↦ absurd (cc (rw e at h))
      | inl e ↦ elim (Bool-cases (has_prefix n (codes "."))) [
        | inl hidden ↦ absurd (cc (rw (e, hidden) at h))
        | inr shown ↦
            let taken : some (n ∷ behind) ≡ some names = rw (e, shown) at h in
            subst (All IsPlainOrRoot) (some-injective _ _ taken) (
              (checked_name n (own_base-filled n e) e (sym (dot_prefix n) ∙ shown)),
              ih behind refl,
            )
      ]
    ]
file_line-plain (a ∷ b ∷ n ∷ d ∷ ws) rest ih names h = ih names h

stanza-plain :
    (in_files : Bool) (lines names : List Bytes)
    → stanza in_files lines ≡ some names
    → All IsPlainOrRoot names
unfolding stanza
stanza-plain in_files [] names h = subst (All IsPlainOrRoot) (some-injective _ _ h) tt
stanza-plain in_files (line ∷ lines) names h =
    let in_files' : Bool =
      if has_prefix line (codes " ") then in_files else has_prefix line (codes "Files:") in
    elim (Bool-cases (has_prefix line (codes " ") && in_files)) [
      | inl e ↦
          file_line-plain (fields line) (stanza in_files' lines) (stanza-plain in_files' lines)
            names (rw e at h)
      | inr e ↦ stanza-plain in_files' lines names (rw e at h)
    ]

some_files :
    (found : Option (List Bytes)) (names : List Bytes)
    → (elim found [ none ↦ none | some [] ↦ none | some (name ∷ rest) ↦ some (name ∷ rest) ])
      ≡ some names
    → (found ≡ some names) × (names ≢ [])
some_files none names h = cc
some_files (some []) names h = cc
some_files (some (name ∷ rest)) names h = (h, (cc))

-- The downloads that a .dsc file asks for cannot leave the staging directory: every name that is
-- taken from it is plain, or the root itself; and there is at least one.
pub files_from_dsc-plain :
    (raw : Bytes) (names : List Bytes)
    → files_from_dsc raw ≡ some names
    → (names ≢ []) × All IsPlainOrRoot names
unfolding files_from_dsc
files_from_dsc-plain raw names h =
    let found = some_files (stanza false (split_on (λ c. c == 10) raw)) names h in
    (found.1, stanza-plain false (split_on (λ c. c == 10) raw) names found.0)

-- ===== src/NixStore/Paths.antt =====
-- splitStorePath (cmd/nix-debuginfod/store.go): what can become a store path.
use debuginfod_pwndbg_re.Prelude.{
  ℕ, ◌≢◌, true, [], ◌∷◌, ◌++◌, Option, none, some, Bytes, all_by-All, All, All-map, All-append, ◌≡◌,
  refl, sym, ap, subst, ◌∙◌, arith, Bool-cases, inl, inr, ◌==◌, append_assoc,
}
use mathlib.Core.Option.{some-injective}
use debuginfod_pwndbg_re.NixStore.{
  has_byte, nix_base32, is_store_hash, cut_prefix, cut, or_empty, store_path, split_name,
  split_store_path, store_path_of,
}

-- A canonical store path: a hash of 32 characters of nix base32, and a name without a slash.
pub record IsStorePath (root sp : Bytes) : Type 0 where
  pub hash : Bytes
  pub pkg : Bytes
  pub path_eq : sp ≡ store_path root hash pkg
  pub hash_valid : is_store_hash hash ≡ true
  pub one_component : All (λ c. c ≢ b'/') pkg

module _ (sep : ℕ) where
  cut-before : (s : Bytes) → All (λ c. c ≢ sep) (cut sep s).0
  unfolding cut
  cut-before [] = tt
  cut-before (b ∷ s) = elim (Bool-cases (b == sep)) [
    | inl e ↦ rw e tt
    | inr e ↦ rw e ((λ q. ground arith), cut-before s)
  ]

  cut_lacking : (s : Bytes) → All (λ c. c ≢ sep) s → cut sep s ≡ (s, none)
  unfolding cut
  cut_lacking [] _ = refl
  cut_lacking (b ∷ s) (n, ns) = ground (arith, cut_lacking s ns)

  cut-append : (s t : Bytes) → All (λ c. c ≢ sep) s → cut sep (s ++ sep ∷ t) ≡ (s, some t)
  unfolding cut
  cut-append [] t _ = ground arith
  cut-append (b ∷ s) t (n, ns) = ground (arith, cut-append s t ns)

  cut-behind : (P : ℕ → Type 0) (s t : Bytes) → All P s → (cut sep s).1 ≡ some t → All P t
  unfolding cut
  cut-behind P [] t _ h = cc
  cut-behind P (b ∷ s) t (p, ps) h = elim (Bool-cases (b == sep)) [
    | inl e ↦ subst (All P) (some-injective _ _ (rw e at h)) ps
    | inr e ↦ cut-behind P s t ps (rw e at h)
  ]

pub cut_prefix-append : (p s : Bytes) → cut_prefix (p ++ s) p ≡ some s
unfolding cut_prefix
cut_prefix-append [] s = refl
cut_prefix-append (c ∷ p) s = ground (arith, cut_prefix-append p s)

base32_plain : (c : ℕ) → has_byte c nix_base32 ≡ true → (c ≢ b'-') × (c ≢ b'/')
unfolding has_byte
base32_plain c h = ground arith

module _ (to_lower : Bytes → Bytes) (root : Bytes) where
  split_name-IsStorePath :
      (hash : Bytes) (pkg : Option Bytes) (rest sp rest' : Bytes)
      → ((t : Bytes) → pkg ≡ some t → All (λ c. c ≢ b'/') t)
      → split_name to_lower root (hash, pkg) rest ≡ some (sp, rest')
      → IsStorePath root sp
  unfolding split_name
  split_name-IsStorePath hash none rest sp rest' plain h = cc
  split_name-IsStorePath hash (some pkg) rest sp rest' plain h =
      elim (Bool-cases (is_store_hash (to_lower hash))) [
        | inl good ↦ record {
          hash = to_lower hash;
          pkg = pkg;
          path_eq = ap (λ (r : Bytes × Bytes). r.0) (sym (some-injective _ _ (rw good at h)));
          hash_valid = good;
          one_component = plain pkg refl;
        }
        | inr bad ↦ absurd (ground (arith, h))
      ]

  split_store_path-IsStorePath :
      (target sp rest : Bytes)
      → split_store_path to_lower root target ≡ some (sp, rest)
      → IsStorePath root sp
  unfolding split_store_path
  split_store_path-IsStorePath target sp rest h = go (cut_prefix target (root ++ b'/' ∷ [])) h
    where
      go :
          (o : Option Bytes)
          → elim o [
            | none ↦ none
            | some tail ↦
                split_name to_lower root (cut b'-' (cut b'/' tail).0) (or_empty (cut b'/' tail).1)
          ]
            ≡ some (sp, rest)
          → IsStorePath root sp
      go none e = cc
      go (some tail) e =
          split_name-IsStorePath _ _ _ sp rest
            (λ t q. cut-behind b'-' (λ c. c ≢ b'/') (cut b'/' tail).0 t (cut-before b'/' tail) q) e

  -- Only canonical store paths come out of a client's text: whatever the target says, the path
  -- that may be fetched for it is a valid hash with a name of one component below the mount root.
  pub store_path_of-IsStorePath :
      (target sp : Bytes) → store_path_of to_lower root target ≡ some sp → IsStorePath root sp
  unfolding store_path_of
  store_path_of-IsStorePath target sp h =
      go (split_store_path to_lower root target) (split_store_path-IsStorePath target) h
    where
      go :
          (o : Option (Bytes × Bytes))
          → ((x rest : Bytes) → o ≡ some (x, rest) → IsStorePath root x)
          → elim o [ none ↦ none | some (x, _) ↦ some x ] ≡ some sp
          → IsStorePath root sp
      go none canon e = cc
      go (some (x, rest)) canon e =
          subst (IsStorePath root) (some-injective _ _ e) (canon x rest refl)

  hash-All : (hash : Bytes) → is_store_hash hash ≡ true → All (λ c. (c ≢ b'-') × (c ≢ b'/')) hash
  unfolding is_store_hash
  hash-All hash h =
      All-map base32_plain hash (all_by-All (λ c. has_byte c nix_base32) hash (ground (arith, h)))

  -- A canonical store path names itself, with nothing behind it, if strings.ToLower leaves valid
  -- hashes alone: what was mounted for one request is found again by the next.
  split_store_path_canonical :
      ((hash : Bytes) → is_store_hash hash ≡ true → to_lower hash ≡ hash)
      → (sp : Bytes) → IsStorePath root sp
      → split_store_path to_lower root sp ≡ some (sp, [])
  unfolding split_store_path split_name store_path
  split_store_path_canonical fixed sp c =
      let tail : Bytes = c.hash ++ b'-' ∷ c.pkg in
      let plain = hash-All c.hash c.hash_valid in
      let one : cut b'/' tail ≡ (tail, none) = cut_lacking b'/' tail (
        All-append (λ x. x ≢ b'/') c.hash (b'-' ∷ c.pkg) (All-map (λ x p. p.1) c.hash plain)
          ((λ q. omega (arith, q)), c.one_component)) in
      let two : cut b'-' tail ≡ (c.hash, some c.pkg) =
        cut-append b'-' c.hash c.pkg (All-map (λ x p. p.0) c.hash plain) in
      let start : cut_prefix sp (root ++ b'/' ∷ []) ≡ some tail =
        ap (λ (x : Bytes). cut_prefix x (root ++ b'/' ∷ []))
          (c.path_eq ∙ sym (append_assoc root (b'/' ∷ []) tail))
        ∙ cut_prefix-append (root ++ b'/' ∷ []) tail in
      rw (start, split_store_path)
        (rw one
          (rw two (rw (fixed c.hash c.hash_valid) (rw c.hash_valid (ground (arith, c.path_eq))))))

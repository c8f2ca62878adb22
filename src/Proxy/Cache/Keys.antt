-- ===== src/Proxy/Cache/Keys.antt =====
-- Keys and paths of the cache (cmd/proxy/filecache.go): what one artifact is called, and that
-- the eviction knows every name that the cache gives.
use debuginfod_pwndbg_re.Prelude.{◌≢◌, [], ◌∷◌, ◌++◌, Bytes, All, ◌≡◌, refl, sym}
use debuginfod_pwndbg_re.Proxy.Cache.{cache_key}

-- A text without NUL.
abbrev pub NoNul : Bytes → Type 0
NoNul s = All (λ c. c ≢ 0) s

-- The part before the first NUL is determined.
before_nul : (a b s t : Bytes) → NoNul a → NoNul b → a ++ 0 ∷ s ≡ b ++ 0 ∷ t → (a ≡ b) × (s ≡ t)
before_nul [] [] s t _ _ h = (refl, cc)
before_nul [] (y ∷ b) s t _ (hy, _) h = let e : 0 ≡ y = cc in absurd (hy (sym e))
before_nul (x ∷ a) [] s t (hx, _) _ h = let e : x ≡ 0 = cc in absurd (hx e)
before_nul (x ∷ a) (y ∷ b) s t (_, ha) (_, hb) h =
    let (e, r) = before_nul a b s t ha hb (cc) in (cc, r)

-- Two requests share an entry of the cache only if they ask for the same thing: endpoints and
-- build ids without NUL give one key only if endpoint, build id and path are the same.
cache_key_injective :
    (e e' b b' p p' : Bytes)
    → NoNul e
    → NoNul e'
    → NoNul b
    → NoNul b'
    → cache_key e b p ≡ cache_key e' b' p'
    → (e ≡ e') × (b ≡ b') × (p ≡ p')
unfolding cache_key
cache_key_injective e e' b b' p p' he he' hb hb' h =
    let (first, rest) = before_nul e e' _ _ he he' h in
    let (second, third) = before_nul b b' p p' hb hb' rest in (first, second, third)

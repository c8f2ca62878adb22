-- ===== src/Proxy/Ranges/Longest.antt =====
-- Lookup (cmd/proxy/ghranges.go) against a scan of all the prefixes.
use debuginfod_pwndbg_re.Prelude.{
  ℕ, ◌≤◌, ◌≢◌, Bool, true, false, ◌&&◌, List, [], ◌∷◌, Option, none, some, Bytes, ltb, leb, ◌==◌,
  if◌then◌else◌, sort, insert_sorted, IsSorted, sort-IsSorted, All, ◌≡◌, refl, ◌∙◌, sym, ap, inl,
  inr, arith, Bool-cases,
}
use debuginfod_pwndbg_re.Proxy.Ranges.{
  Addr, unmap, Prefix, GhPrefix, masked, width_of, LenBucket, put_addr, IpTagSet, put_prefix,
  put_prefixes, longer, empty_set, new_ip_tag_set, bucket_tag, first_tag, lookup_addr, lookup_tag,
}

-- A mask length with the tag found under it.
abbrev pub Found : Type 0
Found = Option (ℕ × Bytes)

abbrev pub contains_addr : Bool → ℕ → Prefix → Bool
contains_addr is4 n p =
    leb p.bits (width_of is4)
    && (masked (width_of is4) p.bits n == masked (width_of is4) p.bits p.addr)

-- A prefix as long as the best so far replaces it.
abbrev pub improve : ℕ → Bytes → Found → Found
improve bits tag none = some (bits, tag)
improve bits tag (some best) = if leb best.0 bits then some (bits, tag) else some best

abbrev same_family : Bool → Bool → Bool
same_family true b = b
same_family false true = false
same_family false false = true

-- The scan of the whole list for the longest prefix that contains the address; among prefixes
-- as long as each other the last one counts.
unfoldable pub scan_prefixes : (Bytes → Option Prefix) → Bool → ℕ → List GhPrefix → Found → Found
scan_prefixes parse is4 n [] best = best
scan_prefixes parse is4 n (p ∷ rest) best = elim (parse p.prefix) [
  | none ↦ scan_prefixes parse is4 n rest best
  | some prefix ↦ scan_prefixes parse is4 n rest (
      if same_family prefix.is4 is4 && contains_addr is4 n prefix
      then improve prefix.bits p.service best
      else best)
]

abbrev pub tag_of : Found → Bytes
tag_of none = []
tag_of (some best) = best.1

abbrev pub scan_addr : (Bytes → Option Prefix) → List GhPrefix → Addr → Bytes
scan_addr parse prefixes Addr.invalid = []
scan_addr parse prefixes (Addr.v4 n) = tag_of (scan_prefixes parse true n prefixes none)
scan_addr parse prefixes (Addr.v6 n) = tag_of (scan_prefixes parse false n prefixes none)

-- The longer of two matches, the first of two of a length.
better : Found → Found → Found
better none r = r
better (some m) none = some m
better (some m) (some m') = if ltb m.0 m'.0 then some m' else some m

at_bits : ℕ → Option Bytes → Found
at_bits bits none = none
at_bits bits (some tag) = some (bits, tag)

module _ (width n : ℕ) where
  -- The longest match of buckets in any order.
  pick : List LenBucket → Found
  pick [] = none
  pick (b ∷ rest) = better (at_bits b.bits (bucket_tag width n b)) (pick rest)

better-swap :
    (i j : ℕ) (s t : Option Bytes) (r : Found)
    → ltb i j ≡ true
    → better (at_bits j s) (better (at_bits i t) r) ≡ better (at_bits i t) (better (at_bits j s) r)
unfolding better at_bits
better-swap i j none none r h = refl
better-swap i j none (some t) r h = refl
better-swap i j (some s) none r h = refl
better-swap i j (some s) (some t) none h = ground arith
better-swap i j (some s) (some t) (some m) h = ground arith

-- What `put_addr` does to the bucket of its length, and what it leaves.
better-improve_same :
    (bits : ℕ) (tag : Bytes) (t : Option Bytes) (r : Found)
    → better (some (bits, tag)) r ≡ improve bits tag (better (at_bits bits t) r)
unfolding better at_bits
better-improve_same bits tag none none = refl
better-improve_same bits tag none (some m) = ground arith
better-improve_same bits tag (some t) none = ground arith
better-improve_same bits tag (some t) (some m) = ground arith

better-improve :
    (i bits : ℕ) (tag : Bytes) (t : Option Bytes) (r : Found)
    → i ≢ bits
    → better (at_bits i t) (improve bits tag r) ≡ improve bits tag (better (at_bits i t) r)
unfolding better at_bits
better-improve i bits tag none r h = refl
better-improve i bits tag (some t) none h = ground arith
better-improve i bits tag (some t) (some m) h = ground arith

module _ (width n : ℕ) where
  put_here :
      (bits network : ℕ) (tag : Bytes) (b : LenBucket) (rest : List LenBucket)
      → b.bits ≡ bits
      → better
          (at_bits b.bits (
            if leb b.bits width
            then (if masked width b.bits n == network
                then some tag
                else b.addrs (masked width b.bits n))
            else none))
          (pick width n rest)
        ≡ (if leb bits width && (masked width bits n == network)
            then improve bits tag (pick width n (b ∷ rest))
            else pick width n (b ∷ rest))
  unfolding pick bucket_tag at_bits
  put_here bits network tag b rest same =
      rw (sym same)
        (ground (arith, better-improve_same b.bits tag (bucket_tag width n b) (pick width n rest)))

  put_later :
      (bits network : ℕ) (tag : Bytes) (b : LenBucket) (rest : List LenBucket)
      → b.bits ≢ bits
      → better (at_bits b.bits (bucket_tag width n b)) (
          if leb bits width && (masked width bits n == network)
          then improve bits tag (pick width n rest)
          else pick width n rest)
        ≡ (if leb bits width && (masked width bits n == network)
            then improve bits tag (pick width n (b ∷ rest))
            else pick width n (b ∷ rest))
  unfolding pick
  put_later bits network tag b rest other =
      elim (Bool-cases (leb bits width && (masked width bits n == network))) [
        | inl h ↦
            rw h (better-improve b.bits bits tag (bucket_tag width n b) (pick width n rest) other)
        | inr h ↦ rw h refl
      ]

  pick-put_addr :
      (bits network : ℕ) (tag : Bytes) (bs : List LenBucket)
      → pick width n (put_addr bits network tag bs) ≡ (
          if leb bits width && (masked width bits n == network)
          then improve bits tag (pick width n bs)
          else pick width n bs)
  unfolding pick put_addr bucket_tag at_bits better
  pick-put_addr bits network tag [] = ground arith
  pick-put_addr bits network tag (b ∷ rest) = elim (Bool-cases (b.bits == bits)) [
    | inl same ↦ rw same (put_here bits network tag b rest (ground arith))
    | inr other ↦ rw other (
        rw (pick-put_addr bits network tag rest) (put_later bits network tag b rest (ground arith)))
  ]

  pick-insert_sorted :
      (b : LenBucket) (bs : List LenBucket)
      → pick width n (insert_sorted longer b bs) ≡ pick width n (b ∷ bs)
  unfolding pick insert_sorted
  pick-insert_sorted b [] = refl
  pick-insert_sorted b (c ∷ rest) = elim (Bool-cases (longer c b)) [
    | inl h ↦ rw h (
        rw (pick-insert_sorted b rest) (
          better-swap b.bits c.bits (bucket_tag width n c) (bucket_tag width n b)
            (pick width n rest) h))
    | inr h ↦ rw h refl
  ]

  pick-sort : (bs : List LenBucket) → pick width n (sort longer bs) ≡ pick width n bs
  unfolding sort pick
  pick-sort [] = refl
  pick-sort (b ∷ rest) =
      pick-insert_sorted b (sort longer rest)
      ∙ ap (better (at_bits b.bits (bucket_tag width n b))) (pick-sort rest)

  AtMost : ℕ → Found → Type 0
  AtMost k none = Unit
  AtMost k (some m) = m.0 ≤ k

  pick-AtMost :
      (k : ℕ) (bs : List LenBucket)
      → All (λ b. ltb k b.bits ≡ false) bs
      → AtMost k (pick width n bs)
  unfolding pick AtMost better at_bits
  pick-AtMost k [] h = tt
  pick-AtMost k (b ∷ rest) (h, hs) =
      longest (bucket_tag width n b) (pick width n rest) (pick-AtMost k rest hs)
    where
      longest : (t : Option Bytes) (r : Found) → AtMost k r → AtMost k (better (at_bits b.bits t) r)
      longest none r low = low
      longest (some t) none low = ground arith
      longest (some t) (some m) low = ground arith

  first-better :
      (k : ℕ) (t : Option Bytes) (r : Found) (later : Bytes)
      → AtMost k r
      → later ≡ tag_of r
      → elim t [ none ↦ later | some tag ↦ tag ] ≡ tag_of (better (at_bits k t) r)
  unfolding AtMost better at_bits
  first-better k none r later low e = e
  first-better k (some t) none later low e = refl
  first-better k (some t) (some m) later low e = ground arith

  first_tag-pick :
      (bs : List LenBucket) → IsSorted longer bs → first_tag width n bs ≡ tag_of (pick width n bs)
  unfolding pick first_tag
  first_tag-pick [] s = refl
  first_tag-pick (b ∷ rest) (low, s) =
      first-better b.bits (bucket_tag width n b) (pick width n rest) _ (pick-AtMost b.bits rest low)
        (first_tag-pick rest s)

longer-IsSorted : (bs : List LenBucket) → IsSorted longer (sort longer bs)
longer-IsSorted = sort-IsSorted longer (λ a b h. ground arith) (λ a b c p q. ground arith)

-- The buckets of a family.
family : Bool → IpTagSet → List LenBucket
family true s = s.v4
family false s = s.v6

pick-put_prefix :
    (is4 : Bool) (n : ℕ) (p : Prefix) (tag : Bytes) (s : IpTagSet)
    → pick (width_of is4) n (family is4 (put_prefix p tag s)) ≡ (
        if same_family p.is4 is4 && contains_addr is4 n p
        then improve p.bits tag (pick (width_of is4) n (family is4 s))
        else pick (width_of is4) n (family is4 s))
unfolding put_prefix family
pick-put_prefix true n p tag s = elim (Bool-cases p.is4) [
  | inl h ↦ simp h (pick-put_addr 32 n p.bits (masked 32 p.bits p.addr) tag s.v4)
  | inr h ↦ simp h refl
]
pick-put_prefix false n p tag s = elim (Bool-cases p.is4) [
  | inl h ↦ simp h refl
  | inr h ↦ simp h (pick-put_addr 128 n p.bits (masked 128 p.bits p.addr) tag s.v6)
]

pick-put_prefixes :
    (parse : Bytes → Option Prefix) (is4 : Bool) (n : ℕ) (prefixes : List GhPrefix) (s : IpTagSet)
    → pick (width_of is4) n (family is4 (put_prefixes parse prefixes s))
      ≡ scan_prefixes parse is4 n prefixes (pick (width_of is4) n (family is4 s))
unfolding put_prefixes scan_prefixes
pick-put_prefixes parse is4 n [] s = refl
pick-put_prefixes parse is4 n (p ∷ rest) s =
    go (parse p.prefix) (λ t. pick-put_prefixes parse is4 n rest t)
  where
    go :
        (r : Option Prefix)
        → ((t : IpTagSet)
            → pick (width_of is4) n (family is4 (put_prefixes parse rest t))
              ≡ scan_prefixes parse is4 n rest (pick (width_of is4) n (family is4 t)))
        → pick (width_of is4) n (
            family is4 (elim r [
              | none ↦ put_prefixes parse rest s
              | some prefix ↦ put_prefixes parse rest (put_prefix prefix p.service s)
            ]))
          ≡ elim r [
            | none ↦ scan_prefixes parse is4 n rest (pick (width_of is4) n (family is4 s))
            | some prefix ↦ scan_prefixes parse is4 n rest (
                if same_family prefix.is4 is4 && contains_addr is4 n prefix
                then improve prefix.bits p.service (pick (width_of is4) n (family is4 s))
                else pick (width_of is4) n (family is4 s))
          ]
    go none ih = ih s
    go (some prefix) ih =
        ih (put_prefix prefix p.service s)
        ∙ ap (scan_prefixes parse is4 n rest) (pick-put_prefix is4 n prefix p.service s)

-- The lookup by mask lengths is the scan of the whole list: it returns the service of the longest
-- prefix that contains the address, with an IPv4-mapped address taken as the IPv4 one, of the last
-- one listed among those as long as each other, and the empty service for an address that is
-- invalid or in none of them.
pub lookup_tag-scan :
    (parse : Bytes → Option Prefix) (prefixes : List GhPrefix) (ip : Addr)
    → lookup_tag (some (new_ip_tag_set parse prefixes)) ip ≡ scan_addr parse prefixes (unmap ip)
unfolding lookup_tag lookup_addr new_ip_tag_set pick family
lookup_tag-scan parse prefixes ip = go (unmap ip)
  where
    buckets : Bool → List LenBucket
    buckets is4 = family is4 (put_prefixes parse prefixes empty_set)

    found :
        (is4 : Bool) (n : ℕ)
        → first_tag (width_of is4) n (sort longer (buckets is4))
          ≡ tag_of
              (scan_prefixes parse is4 n prefixes (pick (width_of is4) n (family is4 empty_set)))
    found is4 n =
        first_tag-pick (width_of is4) n _ (longer-IsSorted (buckets is4))
        ∙ ap tag_of (
            pick-sort (width_of is4) n (buckets is4)
            ∙ pick-put_prefixes parse is4 n prefixes empty_set)

    go :
        (addr : Addr)
        → lookup_addr (new_ip_tag_set parse prefixes) addr ≡ scan_addr parse prefixes addr
    go Addr.invalid = refl
    go (Addr.v4 n) = unfold family in found true n
    go (Addr.v6 n) = unfold family in found false n

-- ===== src/Proxy/ClientIp/Trust.antt =====
-- Whom cmd/proxy/cfip.go believes, and since when.
use debuginfod_pwndbg_re.Prelude.{
  ℕ, true, ◌&&◌, List, [], ◌∷◌, ◌++◌, Option, none, some, Bytes, bytes_eq, Member, ◌≡◌, ◌≢◌, refl,
  ap, ◌∙◌, arith, Bool-cases, inl, inr, ◌⊎◌, if◌then◌else◌, not,
}
use debuginfod_pwndbg_re.Proxy.Ranges.{Addr, Prefix}
use debuginfod_pwndbg_re.Proxy.ClientIp.{
  CfipManager, CfipResponse, parse_cidrs, is_fresh, take_response, refresh, refreshes, is_trusted,
  get_real_ip, get_cf_country,
}

-- What can be concluded from an address and a country.
pub record IsHonest (m : CfipManager) (remote : Addr) (parse_addr : Bytes → Option Addr)
    (header country : Bytes) : Type 0 where
  pub address :
      (get_real_ip parse_addr m (some remote) header ≡ some remote)
      ⊎ ((is_trusted m remote ≡ true)
          × (get_real_ip parse_addr m (some remote) header ≡ parse_addr header)
          × (parse_addr header ≢ none))
  pub place :
      (get_cf_country m (some remote) country ≡ [])
      ⊎ ((is_trusted m remote ≡ true) × (get_cf_country m (some remote) country ≡ country))

-- Headers are believed only from a trusted peer: for any headers, the client's address is the
-- peer's or the one in the header, its country is unknown or the one in the header, and the header
-- counts only if the peer is trusted. A header that is no address leaves the peer's.
pub get_real_ip-IsHonest :
    (m : CfipManager) (remote : Addr) (parse_addr : Bytes → Option Addr) (header country : Bytes)
    → IsHonest m remote parse_addr header country
unfolding get_real_ip get_cf_country
get_real_ip-IsHonest m remote parse_addr header country = elim (Bool-cases (is_trusted m remote)) [
  | inl t ↦ record { address = known t (parse_addr header); place = inr (t, rw t refl) }
  | inr f ↦ record { address = inl (ground (arith, f)); place = inl (rw f refl) }
]
  where
    known :
        is_trusted m remote ≡ true
        → (claimed : Option Addr)
        → let answer : Option Addr =
            if not (bytes_eq header []) && is_trusted m remote
            then elim claimed [ none ↦ some remote | some client ↦ some client ]
            else some remote in
          (answer ≡ some remote)
          ⊎ ((is_trusted m remote ≡ true) × (answer ≡ claimed) × (claimed ≢ none))
    known t none = inl (ground arith)
    known t (some client) = elim (Bool-cases (bytes_eq header [])) [
      | inl e ↦ inl (rw e refl)
      | inr n ↦ inr (t, rw n (rw t refl), λ q. cc)
    ]

-- The ranges that one response gives.
abbrev pub ranges_of : (Bytes → Option Prefix) → CfipResponse → List Prefix
ranges_of parse r = parse_cidrs parse r.ipv4_cidrs ++ parse_cidrs parse r.ipv6_cidrs

-- Where the ranges come from after some ticks.
pub record IsRecent (parse : Bytes → Option Prefix) (ticks : List (ℕ × Option CfipResponse))
    (m m' : CfipManager) : Type 0 where
  pub origin :
      (m' ≡ m)
      ⊎ ((now : ℕ) × (r : CfipResponse) × Member (now, some r) ticks
          × (r.success ≡ true)
          × (m'.prefixes ≡ ranges_of parse r)
          × (m'.last_updated ≡ some now))

refresh-cases :
    (parse : Bytes → Option Prefix) (now : ℕ) (o : Option CfipResponse) (m : CfipManager)
    → (refresh parse now o m ≡ m)
      ⊎ ((r : CfipResponse) × (o ≡ some r)
          × (r.success ≡ true)
          × ((refresh parse now o m).prefixes ≡ ranges_of parse r)
          × ((refresh parse now o m).last_updated ≡ some now))
unfolding refresh take_response
refresh-cases parse now none m = inl (ground arith)
refresh-cases parse now (some r) m = elim (Bool-cases (is_fresh now m.last_updated)) [
  | inl f ↦ inl (simp f refl)
  | inr n ↦ elim (Bool-cases r.success) [
    | inl s ↦ inr (r, refl, s, simp (n, s), simp (n, s))
    | inr s ↦ inl (simp (n, s))
  ]
]

-- The ranges in use always come whole from one answer of the API: after any ticks, failed ones
-- included, they are those from before or all that one successful answer gave, taken at its time.
-- A failure never clears them.
refreshes-IsRecent :
    (parse : Bytes → Option Prefix) (ticks : List (ℕ × Option CfipResponse)) (m : CfipManager)
    → IsRecent parse ticks m (refreshes parse ticks m)
unfolding refreshes
refreshes-IsRecent parse [] m = record { origin = inl refl }
refreshes-IsRecent parse ((now, o) ∷ rest) m =
    join (refreshes-IsRecent parse rest (refresh parse now o m)) (refresh-cases parse now o m)
  where
    join :
        {m' : CfipManager}
        → IsRecent parse rest (refresh parse now o m) m'
        → ((refresh parse now o m ≡ m)
            ⊎ ((r : CfipResponse) × (o ≡ some r)
                × (r.success ≡ true)
                × ((refresh parse now o m).prefixes ≡ ranges_of parse r)
                × ((refresh parse now o m).last_updated ≡ some now)))
        → IsRecent parse ((now, o) ∷ rest) m m'
    join recent cases = record {
      origin = elim recent.origin [
        | inr (t, r, here, s, p, u) ↦ inr (t, r, inr here, s, p, u)
        | inl e ↦ elim cases [
          | inl same ↦ inl (e ∙ same)
          | inr (r, q, s, p, u) ↦ inr (
            now,
            r,
            inl (ap (λ (x : Option CfipResponse). (now, x)) q),
            s,
            ap (λ (x : CfipManager). x.prefixes) e ∙ p,
            ap (λ (x : CfipManager). x.last_updated) e ∙ u,
          )
        ]
      ];
    }

-- ===== src/Proxy/Finder/Select.antt =====
-- Which answer ends the race of tryAllServers (cmd/proxy/finder.go).
use debuginfod_pwndbg_re.Prelude.{
  ℕ, suc, ◌<◌, false, String, Option, none, some, List, [], ◌∷◌, ◌++◌, length, All, Member, ◌≡◌,
  refl, ap, ◌⊎◌, inl, inr, arith, Bool-cases, lookup, All-Member, All-map, sym, subst, ◌↔◌,
  if_intro,
}
use debuginfod_pwndbg_re.Proxy.Errors.{Error, Result, ok, err, not_found}
use debuginfod_pwndbg_re.Proxy.Finder.{
  Server, StateHeaders, ResolveResult, Race, first_answer, try_all_servers, probed, previous,
  expired,
}

pub Result-cases {ℓ} :
    {A : Type ℓ} (r : Result A) → ((a : A) × (r ≡ ok a)) ⊎ ((e : Error) × (r ≡ err e))
Result-cases (ok a) = inl (a, refl)
Result-cases (err e) = inr (e, refl)

-- The select has not seen the deadline when `n` probes have answered.
abbrev pub Before : ℕ → Option ℕ → Type 0
Before n none = Unit
Before n (some d) = n < d

not-expired : (d : Option ℕ) → expired d ≡ false → Before 0 d
not-expired none h = tt
not-expired (some d) h = ground arith

Before-suc : (n : ℕ) (d : Option ℕ) → expired d ≡ false → Before n (previous d) → Before (suc n) d
Before-suc n none _ _ = tt
Before-suc n (some d) h k = ground arith

Before-expired : (n : ℕ) (d : Option ℕ) → Before n d → expired d ≡ false
Before-expired n none h = refl
Before-expired n (some d) h = ground arith

Before-previous : (n : ℕ) (d : Option ℕ) → Before (suc n) d → Before n (previous d)
Before-previous n none h = tt
Before-previous n (some d) h = omega arith

module _ (probe : Server → Result StateHeaders) where
  abbrev pub Fails : Server → Type 0
  Fails s = (e : Error) × (probe s ≡ err e)

  -- The first server of the order that has the build id, with its headers.
  pub record Wins (deadline : Option ℕ) (order : List Server) (r : ResolveResult) : Type 0 where
    pub earlier : List Server
    pub later : List Server
    pub order_eq : order ≡ earlier ++ (r.server ∷ later)
    pub earlier_fail : All Fails earlier
    pub own_headers : probe r.server ≡ ok r.headers
    pub in_time : Before (length earlier) deadline

  Wins-cons :
      (d : Option ℕ) (s : Server) (rest : List Server) (r : ResolveResult)
      → expired d ≡ false
      → Fails s
      → Wins (previous d) rest r
      → Wins d (s ∷ rest) r
  Wins-cons d s rest r h f w = record {
    earlier = s ∷ w.earlier;
    later = w.later;
    order_eq = ap (◌∷◌ s) w.order_eq;
    earlier_fail = (f, w.earlier_fail);
    own_headers = w.own_headers;
    in_time = Before-suc (length w.earlier) d h w.in_time;
  }

  first_answer_sound :
      (d : Option ℕ) (order : List Server) (r : ResolveResult)
      → first_answer probe d order ≡ ok r
      → Wins d order r
  unfolding first_answer
  first_answer_sound d [] r h = ground arith
  first_answer_sound d (s ∷ rest) r h = elim (Bool-cases (expired d)) [
    | inl x ↦ ground arith
    | inr x ↦ elim (Result-cases (probe s)) [
      | inl (hdr, e) ↦
          let this : r ≡ record { server = s; headers = hdr } = ground arith in
          rw this (record {
            earlier = [];
            later = rest;
            order_eq = refl;
            earlier_fail = tt;
            own_headers = e;
            in_time = not-expired d x;
          })
      | inr (x', e) ↦
          Wins-cons d s rest r x (x', e) (first_answer_sound (previous d) rest r (ground arith))
    ]
  ]

  first_answer-skip :
      (d : Option ℕ) (earlier rest : List Server) (h : StateHeaders) (s : Server)
      → All Fails earlier
      → probe s ≡ ok h
      → Before (length earlier) d
      → first_answer probe d (earlier ++ (s ∷ rest)) ≡ ok (record { server = s; headers = h })
  unfolding first_answer
  first_answer-skip d [] rest h s _ e b = rw (e, Before-expired 0 d b)
  first_answer-skip d (x ∷ xs) rest h s ((err_x, f), fs) e b =
      rw (f, Before-expired (suc (length xs)) d b)
        (first_answer-skip (previous d) xs rest h s fs e (Before-previous (length xs) d b))

-- A resolution is won exactly by the first server, in the order of arrival, that has the build id,
-- if no deadline was seen before; and the headers that are kept are that server's own.
pub try_all_servers_iff :
    (race : Race) (r : ResolveResult)
    → (try_all_servers race ≡ ok r) ↔ Wins race.probe race.deadline race.order r
unfolding try_all_servers
try_all_servers_iff race r = (
  first_answer_sound race.probe race.deadline race.order r,
  λ w. rw w.order_eq (
      first_answer-skip race.probe race.deadline w.earlier w.later r.headers r.server w.earlier_fail
        w.own_headers w.in_time),
)

module _ (probe : Server → Result StateHeaders) where
  first_answer-none :
      (d : Option ℕ) (order : List Server)
      → first_answer probe d order ≡ err not_found
      → All (Fails probe) order × Before (length order) d
  unfolding first_answer
  first_answer-none d [] h =
      (tt, elim (Bool-cases (expired d)) [ inl x ↦ ground arith | inr x ↦ not-expired d x ])
  first_answer-none d (s ∷ rest) h = elim (Bool-cases (expired d)) [
    | inl x ↦ ground arith
    | inr x ↦ elim (Result-cases (probe s)) [
      | inl (hdr, e) ↦ ground arith
      | inr (x', e) ↦
          let (fs, b) = first_answer-none (previous d) rest (ground arith) in
          (((x', e), fs), Before-suc (length rest) d x b)
    ]
  ]

-- A resolution says "not found" only when every server that it probed has answered, before the
-- deadline, that it does not have the build id.
try_all_servers-not_found :
    (race : Race)
    → try_all_servers race ≡ err not_found
    → All (Fails race.probe) race.order × Before (length race.order) race.deadline
unfolding try_all_servers
try_all_servers-not_found race h = first_answer-none race.probe race.deadline race.order h

-- Each server stands under its own name, and each name has one server: the map `servers`.
abbrev pub Named : List (String × Server) → Type 0
Named servers = All (λ e. (e.1.name ≡ e.0) × (lookup e.0 servers ≡ some e.1)) servers

-- Only servers of the loop are probed.
abbrev pub OnlyProbed : List (String × Server) → Race → Type 0
OnlyProbed servers race = All (λ s. Member s (probed servers)) race.order

probed-up : (servers : List (String × Server)) → All (λ s. s.down ≡ false) (probed servers)
unfolding probed
probed-up [] = tt
probed-up ((k, s) ∷ rest) =
    if_intro (All (λ s. s.down ≡ false)) s.down (λ _. probed-up rest) (λ h. (h, probed-up rest))

probed-All :
    (P : Server → Type 0) (servers : List (String × Server))
    → All (λ e. P e.1) servers
    → All P (probed servers)
unfolding probed
probed-All P [] _ = tt
probed-All P ((k, s) ∷ rest) (p, ps) =
    if_intro (All P) s.down (λ _. probed-All P rest ps) (λ _. (p, probed-All P rest ps))

All-middle : (P : Server → Type 0) (xs ys : List Server) (s : Server) → All P (xs ++ (s ∷ ys)) → P s
All-middle P [] ys s (p, _) = p
All-middle P (x ∷ xs) ys s (_, ps) = All-middle P xs ys s ps

winner-Member :
    (servers : List (String × Server)) (race : Race) (r : ResolveResult)
    → OnlyProbed servers race
    → try_all_servers race ≡ ok r
    → Member r.server (probed servers)
winner-Member servers race r only h =
    let w = (try_all_servers_iff race r).0 h in
    All-middle (λ s. Member s (probed servers)) w.earlier w.later r.server
      (subst (All (λ s. Member s (probed servers))) w.order_eq only)

pub winner-up :
    (servers : List (String × Server)) (race : Race) (r : ResolveResult)
    → OnlyProbed servers race
    → try_all_servers race ≡ ok r
    → r.server.down ≡ false
winner-up servers race r only h =
    All-Member (λ s. s.down ≡ false) r.server (probed servers) (probed-up servers)
      (winner-Member servers race r only h)

pub winner-lookup :
    (servers : List (String × Server)) (race : Race) (r : ResolveResult)
    → Named servers
    → OnlyProbed servers race
    → try_all_servers race ≡ ok r
    → lookup r.server.name servers ≡ some r.server
winner-lookup servers race r named only h =
    All-Member (λ s. lookup s.name servers ≡ some s) r.server (probed servers)
      (probed-All (λ s. lookup s.name servers ≡ some s) servers
        (All-map (λ e p. subst (λ k. lookup k servers ≡ some e.1) (sym p.0) p.1) servers named))
      (winner-Member servers race r only h)

-- ===== src/Render/Valid.antt =====
-- Which relays `relayConfig` of v2proxy/env.go accepts.
use v2pro_dock.Base.{
  ℕ, ◌↔◌, ◌⊎◌, ◌||◌, ltb, Bool-cases, ◌≤◌, String, ◌≡◌, refl, ◌≢◌, inl, inr, Bool, true, false,
  Option, none, some, arith, str_eq, eq_iff, if◌then◌else◌, Option-cases, nat_equal, string_equal,
  if_cases,
}
use mathlib.Core.Path.{subst}
use v2pro_dock.Base.Int.{ℤ, pos, negsuc}
use v2pro_dock.Stdlib.{Stdlib, Url}
use v2pro_dock.Render.{RelayCfg}
use v2pro_dock.Render.Relay.{relay_config, relay_of, relay_of_url, relay_port_of}

-- The port of a relay, by the text of the URL's port: the scheme's own where the text is empty,
-- else the number that the text is.
abbrev pub HasPort : Stdlib → String → Bool → ℕ → Type 0
HasPort g text secure n =
    ((text ≡ "") × (n ≡ (if secure then 443 else 80)))
    ⊎ ((text ≢ "") × (g.atoi text ≡ some (pos n)))

-- A relay of the URL `u`: its host, its port, which is in range, its user, and TLS as the scheme says.
pub record IsRelayOf (g : Stdlib) (u : Url) (rc : RelayCfg) : Type 0 where
  pub same_host : rc.host ≡ u.hostname
  pub has_host : u.hostname ≢ ""
  pub port_of : HasPort g (g.trim_space u.port) rc.tls rc.port
  pub port_lo : 1 ≤ rc.port
  pub port_hi : rc.port ≤ 65_535
  pub scheme : g.to_lower u.scheme ≡ (if rc.tls then "https" else "http")
  pub user : rc.user ≡ u.username
  pub pass : rc.pass ≡ u.password

relay_port_of-range :
    (g : Stdlib) (p : String) (def n : ℕ)
    → 1 ≤ def
    → def ≤ 65_535
    → relay_port_of g p def ≡ some n
    → (1 ≤ n) × (n ≤ 65_535)
unfolding relay_port_of
relay_port_of-range g p def n lo hi h = ground arith

ported :
    (z : Option ℤ) (n : ℕ)
    → ◌≡◌ {A = Option ℕ}
        (elim z [
          | none ↦ none
          | some (negsuc _) ↦ none
          | some (pos m) ↦ if ltb m 1 || ltb 65_535 m then none else some m
        ])
        (some n)
    → z ≡ some (pos n)
ported none n h = cc h
ported (some (negsuc k)) n h = cc h
ported (some (pos m)) n h = ground (arith, h)

relay_port_of-HasPort :
    (g : Stdlib) (text : String) (secure : Bool) (n : ℕ)
    → relay_port_of g text (if secure then 443 else 80) ≡ some n
    → HasPort g text secure n
unfolding relay_port_of
relay_port_of-HasPort g text secure n h = elim (Bool-cases (str_eq text "")) [
  | inl e ↦ inl ((eq_iff text "").0 e, some_inj (rw e at h))
  | inr e ↦ inr (ground (arith, eq_iff text ""), ported (g.atoi text) n (rw e at h))
]
  where
    some_inj : {a : ℕ} → some a ≡ some n → n ≡ a
    some_inj k = cc

port_in_range :
    (g : Stdlib) (u : Url) (secure : Bool) (n : ℕ)
    → relay_port_of g (g.trim_space u.port) (if secure then 443 else 80) ≡ some n
    → (1 ≤ n) × (n ≤ 65_535)
port_in_range g u true n e =
    relay_port_of-range g (g.trim_space u.port) 443 n (omega arith) (omega arith) e
port_in_range g u false n e =
    relay_port_of-range g (g.trim_space u.port) 80 n (omega arith) (omega arith) e

-- What a result of `relayConfig` may be.
IfRelay : Stdlib → Url → Option RelayCfg → Type 0
IfRelay g u r = (rc : RelayCfg) → r ≡ some rc → IsRelayOf g u rc

none_is_no_relay : (g : Stdlib) (u : Url) → IfRelay g u none
unfolding IfRelay
none_is_no_relay g u rc h = elim (impossible h) [ ]
  where
    impossible : none ≡ some rc → ⊥
    impossible k = cc

relay_of-IfRelay :
    (g : Stdlib) (u : Url) (secure : Bool)
    → u.hostname ≢ ""
    → g.to_lower u.scheme ≡ (if secure then "https" else "http")
    → IfRelay g u (relay_of g u secure)
unfolding relay_of IfRelay
relay_of-IfRelay g u secure h s =
    elim (Option-cases (relay_port_of g (g.trim_space u.port) (if secure then 443 else 80))) [
      | inl e ↦ rw e (none_is_no_relay g u)
      | inr (port, e) ↦ rw e (λ rc k. subst (IsRelayOf g u) (some_inj k) (record {
        same_host = refl;
        has_host = h;
        port_of = relay_port_of-HasPort g (g.trim_space u.port) secure port e;
        port_lo = (port_in_range g u secure port e).0;
        port_hi = (port_in_range g u secure port e).1;
        scheme = s;
        user = refl;
        pass = refl;
      }))
    ]
  where
    some_inj : {a b : RelayCfg} → some a ≡ some b → a ≡ b
    some_inj k = cc

relay_of_url-IfRelay : (g : Stdlib) (u : Url) → IfRelay g u (relay_of_url g u)
unfolding relay_of_url
relay_of_url-IfRelay g u =
    if_cases (IfRelay g u) (str_eq u.hostname "") _ _ (λ _. none_is_no_relay g u)
      (λ h.
        if_cases (IfRelay g u) (str_eq (g.to_lower u.scheme) "http") _ _
          (λ s.
            relay_of-IfRelay g u false (ground (arith, eq_iff u.hostname ""))
              ((eq_iff (g.to_lower u.scheme) "http").0 s))
          (λ _.
            if_cases (IfRelay g u) (str_eq (g.to_lower u.scheme) "https") _ _
              (λ s.
                relay_of-IfRelay g u true (ground (arith, eq_iff u.hostname ""))
                  ((eq_iff (g.to_lower u.scheme) "https").0 s))
              (λ _. none_is_no_relay g u)))

-- A relay of the URL is accepted.
port_accepted :
    (g : Stdlib) (text : String) (secure : Bool) (n : ℕ)
    → HasPort g text secure n
    → 1 ≤ n
    → n ≤ 65_535
    → relay_port_of g text (if secure then 443 else 80) ≡ some n
unfolding relay_port_of
port_accepted g text secure n (inl (e, d)) lo hi = rw (e, d) refl
port_accepted g text secure n (inr (ne, a)) lo hi = rw (not_blank, a) (ground arith)
  where
    not_blank : str_eq text "" ≡ false
    not_blank = ground (arith, eq_iff text "")

relay_of-accepts :
    (g : Stdlib) (u : Url) (secure : Bool) (rc : RelayCfg)
    → IsRelayOf g u rc
    → rc.tls ≡ secure
    → relay_of g u secure ≡ some rc
unfolding relay_of
relay_of-accepts g u secure rc r t =
    rw (port_accepted g (g.trim_space u.port) secure rc.port has_port r.port_lo r.port_hi)
      (rw (← r.same_host, ← r.user, ← r.pass, ← t) refl)
  where
    has_port : HasPort g (g.trim_space u.port) secure rc.port
    has_port = subst (λ b. HasPort g (g.trim_space u.port) b rc.port) t r.port_of

relay_of_url-accepts :
    (g : Stdlib) (u : Url) (rc : RelayCfg) → IsRelayOf g u rc → relay_of_url g u ≡ some rc
unfolding relay_of_url
relay_of_url-accepts g u rc r = elim (Bool-cases rc.tls) [
  | inl t ↦ rw (has_host, scheme true t) (relay_of-accepts g u true rc r t)
  | inr t ↦ rw (has_host, scheme false t) (relay_of-accepts g u false rc r t)
]
  where
    has_host : str_eq u.hostname "" ≡ false
    has_host = ground (arith, eq_iff u.hostname "", r.has_host)

    scheme : (b : Bool) → rc.tls ≡ b → g.to_lower u.scheme ≡ (if b then "https" else "http")
    scheme b t = subst (λ x. g.to_lower u.scheme ≡ (if x then "https" else "http")) t r.scheme

-- For a value that is not blank and parses as a URL: a relay that is accepted is that of the URL,
-- and the relay of the URL is accepted. It exists where the URL has a host, which is the relay's, and
-- the scheme http or https, the relay's leg having TLS exactly for https; the user and the password
-- are the URL's; the port is 443 or 80, as the scheme says, if the URL has none, else the number that
-- the URL's port is, and it lies between 1 and 65535. So a URL without a host, of another scheme, or
-- with a port that is no number of this range, turns the relay off.
pub relay_config-IsRelayOf :
    (g : Stdlib) (v : String) (u : Url) (rc : RelayCfg)
    → g.trim_space v ≢ ""
    → g.parse_url (g.trim_space v) ≡ some u
    → (relay_config g v ≡ some rc) ↔ IsRelayOf g u rc
unfolding relay_config IfRelay
relay_config-IsRelayOf g v u rc n p =
    rw (not_blank, p) (relay_of_url-IfRelay g u rc, relay_of_url-accepts g u rc)
  where
    not_blank : str_eq (g.trim_space v) "" ≡ false
    not_blank = ground (arith, eq_iff (g.trim_space v) "", n)

-- ===== src/Selector/Serving.antt =====
-- The guard on open client sockets: what it protects, and when it lets go.
use v2pro_dock.Base.{
  ℕ, ◌-◌, ◌≡◌, refl, true, Option, none, some, List, [], ◌∷◌, arith, ltb, if◌then◌else◌, nat_equal,
  string_equal,
}
use v2pro_dock.Selector.{ProxySelector, Scan, serving_clients, serving_socket_unproven_grace}

-- The state after scans at given times, the newest first.
unfoldable pub scanned : ProxySelector → List (Scan × ℕ) → ProxySelector
scanned s [] = s
scanned s ((scan, now) ∷ older) = (serving_clients scan now (scanned s older)).1

-- When the present run of scans with no evidence began: the time of the first scan after the last
-- one with evidence, or that of the state before all scans.
unfoldable pub blind_since : ProxySelector → List (Scan × ℕ) → Option ℕ
blind_since s [] = s.serving_unproven
blind_since s ((scan, now) ∷ older) =
    let before = blind_since s older in
    if scan.proven then none else elim before [ none ↦ some now | some t ↦ some t ]

scanned-blind :
    (s : ProxySelector) (scans : List (Scan × ℕ))
    → (scanned s scans).serving_unproven ≡ blind_since s scans
unfolding scanned blind_since serving_clients
scanned-blind s [] = refl
scanned-blind s ((scan, now) ∷ older) = ground (arith, scanned-blind s older)

-- Whatever was scanned before: a proven scan calls the instance busy exactly when a client is
-- connected, with no limit of time; a scan without evidence calls it busy exactly until the grace
-- has passed since the scans went blind, the first such scan included.
pub serving_clients_lem :
    (s : ProxySelector) (scans : List (Scan × ℕ)) (scan : Scan) (now : ℕ)
    → (serving_clients scan now (scanned s scans)).0 ≡ (
        if scan.proven then ltb 0 scan.clients else elim (blind_since s scans) [
          | none ↦ true
          | some t ↦ ltb (now - t) serving_socket_unproven_grace
        ])
unfolding serving_clients
serving_clients_lem s scans scan now = ground (arith, scanned-blind s scans)

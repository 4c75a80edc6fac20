-- ===== src/Probe/Legs.antt =====
-- Which targets a probe races.
use v2pro_dock.Base.{
  ◌≤◌, String, ◌≡◌, Bool, true, false, ◌||◌, some, List, [], ◌∷◌, map, arith, str_eq, eq_iff,
  ==_refl, nat_equal, string_equal, length, head?,
}
use v2pro_dock.Probe.{
  ProbeLeg, status_ok, covers, primary_url, probe_legs, quick_fallback_url, telegram_probe_url,
}

abbrev urls : List ProbeLeg → List String
urls = map λ l. l.url

-- No two legs have the same target.
abbrev pub AllDistinct : List ProbeLeg → Type 0
AllDistinct [] = Unit {0}
AllDistinct (l ∷ ls) = (covers l.url ls ≡ false) × AllDistinct ls

-- The race is over one to three different targets, the first of which is the configured one, or
-- the default when none is configured, under the status rule; the fallback is among them, and
-- Telegram is exactly when its probe is enabled or it is the configured target.
pub probe_legs_lem :
    (enabled : Bool) (test_url : String)
    → AllDistinct (probe_legs enabled test_url)
      × (head? (probe_legs enabled test_url)
          ≡ some (record { url = primary_url test_url; grade = status_ok }))
      × (length (probe_legs enabled test_url) ≤ 3)
      × (covers telegram_probe_url (probe_legs enabled test_url)
          ≡ (enabled || str_eq (primary_url test_url) telegram_probe_url))
      × (covers quick_fallback_url (probe_legs enabled test_url) ≡ true)
unfolding probe_legs
probe_legs_lem enabled test_url =
    let p = primary_url test_url in
    ground (
      arith,
      eq_iff quick_fallback_url p,
      eq_iff p quick_fallback_url,
      eq_iff p telegram_probe_url,
      eq_iff telegram_probe_url p,
      ==_refl telegram_probe_url,
      ==_refl quick_fallback_url,
    )

-- ===== src/Populate.antt =====
-- `startShared` and `tryConfigs` of v2proxy/selector.go: an instance looks for its first working
-- upstream, next to others that share a ledger with it. The instance's mutex is held throughout.
pub mod Step
pub mod Claims
pub mod Poison
pub mod Retry
pub mod Tests
use v2pro_dock.Base.{
  ℕ, ◌+◌, String, Bool, true, false, not, ◌&&◌, Option, none, some, List, [], ◌∷◌, nat_eq,
  if◌then◌else◌, nat_equal, string_equal, length,
}
use v2pro_dock.Base.Dict.{Dict, has}
use v2pro_dock.Base.Int.{pos}
use v2pro_dock.Pool.{ProxyConfig, key}
use v2pro_dock.Probe.{HealthResult, ProbeVerdict, adopt, unproven, reject, classify_probe}
use v2pro_dock.Ledger.{Ledger, is_bad, mark_bad, try_claim, unclaim}
use v2pro_dock.Selector.{ProxySelector}
use v2pro_dock.Switch.{World, StartError, stop_xray, start_xray}

-- What the outside answers to the trial of one candidate: whether the deadline has passed before
-- it, whether a child that did not bind had exited, and the rest as for a swap.
pub record Trial : Type 0 where
  pub late : Bool
  pub exited : Bool
  pub world : World

pub data PopulateError : Type 0 where
  no_configs probe_timeout no_working_config : PopulateError

pub record Pass : Type 0 where
  pub selector : ProxySelector
  pub ledger : Option Ledger
  pub skipped : ℕ

-- How the body of the loop ends: with the next candidate, or by a return.
pub data Next : Type 0 where
  go_on : Pass → Next
  serving : Pass → Next
  out_of_time : Pass → Next

-- The probe through the bound port.
graded : ℕ → String → HealthResult → ℕ → ProbeVerdict → Pass → Next
graded i k r clock adopt p = serving (record p { selector = taken })
  where
    taken : ProxySelector
    taken = record p.selector {
      active_index = pos i;
      last_latency = r.latency;
      last_probe = some clock;
      fail_count = 0;
      ok_streak = 0;
      active_since = some clock;
    }
graded i k r clock unproven p =
    go_on (record p { ledger = unclaim p.ledger k; selector = stop_xray p.selector })
graded i k r clock reject p =
    go_on (record p { ledger = unclaim (mark_bad p.ledger k) k; selector = stop_xray p.selector })

-- After the start of the child.
launched : Bool → ℕ → String → Trial → Option StartError → Pass → Next
unfolding graded
launched respect_bad i k t (some e) p =
    go_on (record p { ledger = unclaim (mark_bad p.ledger k) k })
launched respect_bad i k t none p =
    if t.world.binds
    then graded i k t.world.verify t.world.clock (classify_probe t.world.verify) p
    else if t.exited
    then go_on
        (record p { ledger = unclaim (mark_bad p.ledger k) k; selector = stop_xray p.selector })
    else go_on (record p {
      skipped = if respect_bad then p.skipped + 1 else p.skipped;
      ledger = unclaim p.ledger k;
      selector = stop_xray p.selector;
    })

-- The body of the loop for the candidate at index `i`.
unfoldable pub try_one : Bool → Dict String ℕ → ℕ → ProxyConfig → Trial → Pass → Next
unfolding launched
try_one respect_bad exclude i c t p =
    let k = key c in
    let claim = try_claim p.ledger k in
    let start = start_xray t.world (pos i) p.selector in
    if t.late
    then out_of_time p
    else if has k exclude
    then go_on p
    else if respect_bad && is_bad p.ledger k
    then go_on (record p { skipped = p.skipped + 1 })
    else if not claim.0
    then go_on p
    else launched respect_bad i k t start.0 (record p { ledger = claim.1; selector = start.1 })

-- `continue` and `return`
abbrev pub carry_on : (Pass → Option PopulateError × Pass) → Next → Option PopulateError × Pass
carry_on rest (go_on q) = rest q
carry_on rest (serving q) = (none, q)
carry_on rest (out_of_time q) = (some probe_timeout, q)

try_from :
    Bool → Dict String ℕ → (ℕ → Trial) → ℕ → List ProxyConfig → Pass → Option PopulateError × Pass
unfolding try_one
try_from respect_bad exclude trials i [] p = (some no_working_config, p)
try_from respect_bad exclude trials i (c ∷ cs) p =
    carry_on (λ q. try_from respect_bad exclude trials (i + 1) cs q)
      (try_one respect_bad exclude i c (trials i) p)

-- `tryConfigs`; the count of skipped candidates starts at zero.
unfoldable pub try_configs :
    Bool → Dict String ℕ → (ℕ → Trial) → Option Ledger → ProxySelector → Option PopulateError × Pass
unfolding try_from
try_configs respect_bad exclude trials l s =
    try_from respect_bad exclude trials 0 s.configs
      (record { selector = s; ledger = l; skipped = 0 })

-- Rejected and unproven candidates are tried once more if the first pass skipped any.
abbrev pub after_first :
    (Pass → Option PopulateError × Pass) → Option PopulateError × Pass → Option PopulateError × Pass
after_first again (none, p) = (none, p)
after_first again (some e, p) = if nat_eq p.skipped 0 then (some e, p) else again p

-- `startShared`, with the trials of the first pass and of the retry.
unfoldable pub start_shared :
    Dict String ℕ
    → (ℕ → Trial)
    → (ℕ → Trial)
    → Option Ledger
    → ProxySelector
    → Option PopulateError × Pass
unfolding try_configs
start_shared exclude first retry l s =
    if nat_eq (length s.configs) 0
    then (some no_configs, record { selector = s; ledger = l; skipped = 0 })
    else after_first (λ p. try_configs false exclude retry p.ledger p.selector)
        (try_configs true exclude first l s)

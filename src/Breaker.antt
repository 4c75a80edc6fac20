-- ===== src/Breaker.antt =====
-- `srcBreaker` of v2proxy/manager.go: the circuit breaker that rests dead subscription sources
-- across refreshes. The mutex makes each method one step.
pub mod Rest
pub mod Tests
use v2pro_dock.Base.{
  ℕ, zero, suc, ◌+◌, ◌-◌, String, ◌≡◌, refl, Bool, true, false, Option, none, some, List, [], ◌∷◌,
  arith, leb, if◌then◌else◌, string_equal,
}
use v2pro_dock.Base.Dict.{Dict, lookup, insert, delete, has, dict_laws}

-- constants.go
abbrev pub src_fail_threshold : ℕ
src_fail_threshold = 3

abbrev pub src_skip_cycles : ℕ
src_skip_cycles = 5

pub record SrcBreaker : Type 0 where
  pub fails : Dict String ℕ
  pub skip : Dict String ℕ

-- A missing key reads as zero.
abbrev pub or_zero : Option ℕ → ℕ
or_zero none = 0
or_zero (some n) = n

-- `left, resting := b.skip[url]; if !resting || left <= 0 { return true }`
abbrev allow_at : Option ℕ → SrcBreaker → String → Bool × SrcBreaker
allow_at none b url = (true, b)
allow_at (some zero) b url = (true, b)
allow_at (some (suc left)) b url = (false, record b { skip = insert url left b.skip })

unfoldable pub allow : SrcBreaker → String → Bool × SrcBreaker
allow b url = allow_at (lookup url b.skip) b url

unfoldable pub rest_left : SrcBreaker → String → ℕ
rest_left b url = or_zero (lookup url b.skip)

unfoldable pub note : SrcBreaker → String → Bool → SrcBreaker
note b url true = record { fails = delete url b.fails; skip = delete url b.skip }
note b url false =
    let n = or_zero (lookup url b.fails) + 1 in
    let counted = insert url n b.fails in
    record {
      fails = counted;
      skip =
          if leb src_fail_threshold n
          then (if has url b.skip then b.skip else insert url src_skip_cycles b.skip)
          else b.skip;
    }

-- One refresh as one source sees it: `RefreshSubscriptions` asks `allow`, and records the outcome
-- of the fetch of an allowed source.
unfoldable pub cycle : SrcBreaker → String → Bool → Bool × SrcBreaker
unfolding allow note
cycle b url ok =
    let (allowed, b') = allow b url in (allowed, if allowed then note b' url ok else b')

-- The answers of `allow` over `n` refreshes in which every fetch of the source fails.
pub dead_cycles : ℕ → SrcBreaker → String → List Bool
dead_cycles zero b url = []
dead_cycles (suc n) b url = let (allowed, b') = cycle b url false in allowed ∷ dead_cycles n b' url

-- The breaker after them.
pub after_dead : ℕ → SrcBreaker → String → SrcBreaker
after_dead zero b url = b
after_dead (suc n) b url = after_dead n (cycle b url false).1 url

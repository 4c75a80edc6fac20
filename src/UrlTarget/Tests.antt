-- ===== src/UrlTarget/Tests.antt =====
-- A target that is vetted, and an address of the shared address space.
use v2pro_dock.Base.{◌≡◌, refl, none, [], ◌++◌, arith, nat_equal, string_equal}
use v2pro_dock.Stdlib.Sample.{sample, sample_url}
use v2pro_dock.UrlTarget.{is_non_public_v4, CheckTarget, normalize_check_target}
use v2pro_dock.UrlTarget.Address.{
  address, in_blocks, special_blocks, further_blocks, is_non_public_v4-blocks,
}
use v2pro_dock.UrlTarget.Vetting.{IsSafe, normalize_check_target-IsSafe}

abbrev target : CheckTarget
target = record { key = "a.example"; probe_url = "https://a.example:443"; host = "a.example:443" }

normalize_check_target-IsSafe_example : IsSafe sample (λ s. none) (sample_url "https" []) target
unfolding normalize_check_target
normalize_check_target-IsSafe_example =
    normalize_check_target-IsSafe sample (λ s. none) (λ s. none) "a.example" (sample_url "https" [])
      target refl refl

is_non_public_v4-blocks_example :
    is_non_public_v4 100 100 100 200
    ≡ in_blocks (address 100 100 100 200) (special_blocks ++ further_blocks)
is_non_public_v4-blocks_example =
    is_non_public_v4-blocks 100 100 100 200 (omega arith) (omega arith) (omega arith) (omega arith)

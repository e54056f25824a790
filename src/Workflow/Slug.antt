-- ===== src/Workflow/Slug.antt =====
-- `slugify` of src/modules/workflow/workflow-stages.service.ts, over character codes. Case folding is
-- that of ASCII; every other letter is dropped by the first `replace`.
pub mod Suffixes
use ecotrack_api.Common.{
  Bool, List, [], false, if◌then◌else◌, leb, ltb, map, reverse, select, suc, true, zero, ℕ, ◌%◌,
  ◌&&◌, ◌++◌, ◌+◌, ◌/◌, ◌==◌, ◌||◌, ◌∷◌,
}

abbrev pub Text : Type 0
Text = List ℕ

unfoldable pub is_upper : ℕ → Bool
is_upper c = leb b'A' c && leb c b'Z'

unfoldable pub to_lower : ℕ → ℕ
unfolding is_upper
to_lower c = if is_upper c then c + 32 else c

-- `\s` of a JavaScript pattern, which is what `trim` removes too.
unfoldable pub is_space : ℕ → Bool
is_space c =
    (leb 9 c && leb c 13)
    || c == 32
    || c == 0xa0
    || c == 0x1680
    || (leb 0x2000 c && leb c 0x200a)
    || c == 0x2028
    || c == 0x2029
    || c == 0x202f
    || c == 0x205f
    || c == 0x3000
    || c == 0xfeff

unfoldable pub trim_start : Text → Text
unfolding is_space
trim_start [] = []
trim_start (c ∷ s) = let rest = trim_start s in if is_space c then rest else c ∷ s

unfoldable pub trim : Text → Text
unfolding trim_start
trim s = reverse (trim_start (reverse s))

-- `[a-z0-9\s_-]`
is_kept : ℕ → Bool
unfolding is_space
is_kept c =
    (leb b'a' c && leb c b'z') || (leb b'0' c && leb c b'9') || is_space c || c == b'_' || c == b'-'

-- `[\s-]`
is_break : ℕ → Bool
unfolding is_space
is_break c = is_space c || c == b'-'

-- `replace(/[\s-]+/g, '_')`: a run of breaks becomes one underscore. `in_run` tells that the
-- character before was a break.
join_runs : Bool → Text → Text
unfolding is_break
join_runs in_run [] = []
join_runs in_run (c ∷ s) =
    let next = join_runs (is_break c) s in
    if is_break c then (if in_run then next else b'_' ∷ next) else c ∷ next

unfoldable pub slugify : Text → Text
unfolding to_lower trim is_kept join_runs
slugify name = join_runs false (select is_kept (trim (map to_lower name)))

-- `${n}`
unfoldable pub decimal : ℕ → ℕ → Text → Text
decimal zero n out = out
decimal (suc fuel) n out =
    let more = decimal fuel (n / 10) ((b'0' + n % 10) ∷ out) in
    if ltb n 10 then (b'0' + n) ∷ out else more

unfoldable pub print : ℕ → Text
unfolding decimal
print n = decimal (suc n) n []

-- `${base}_${suffix}`
unfoldable pub suffixed : Text → ℕ → Text
suffixed base suffix = base ++ b'_' ∷ print suffix

unfoldable pub same_text : Text → Text → Bool
same_text [] [] = true
same_text (a ∷ s) (b ∷ t) = a == b && same_text s t
same_text [] (b ∷ t) = false
same_text (a ∷ s) [] = false

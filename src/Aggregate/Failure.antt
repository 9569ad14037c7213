-- ===== src/Aggregate/Failure.antt =====
-- internal/engine/failure_classify.go, internal/backend/factory.go (HasIdleWatchdog) and
-- extractRateLimitResetHint of internal/engine/aggregate.go. A text is its bytes.
use rick_driven_development.Prelude.{
  zero, map, ℕ, suc, ◌+◌, String, Bool, false, true, not, ◌&&◌, ◌||◌, List, [], ◌∷◌, Option, none,
  some, ◌==◌, leb, eqb, length, take, drop, if◌then◌else◌,
}
use mathlib.Core.List.{reverse}
use rick_driven_development.Event.Payload.{Bytes, FailureKind, PersonaFailedPayload}
use rick_driven_development.Aggregate.Runtime.{Outcome, done, panic}
use rick_driven_development.Aggregate.Fingerprint.{codes}

unfoldable pub has_idle_watchdog : String → Bool
has_idle_watchdog name = not (name == "antigravity")

-- p.FailureKind of the failures that are retried with rotation
unfoldable pub kind_is_auto_retryable : FailureKind → String → Bool
unfolding has_idle_watchdog
kind_is_auto_retryable FailureKind.idle_timeout backend = true
kind_is_auto_retryable FailureKind.wall_timeout backend = not (has_idle_watchdog backend)
kind_is_auto_retryable _ backend = false

abbrev pub failure_kind_is_auto_retryable : PersonaFailedPayload → Bool
failure_kind_is_auto_retryable p = kind_is_auto_retryable p.failure_kind p.backend

abbrev pub is_rate_limited : FailureKind → Bool
is_rate_limited FailureKind.rate_limited = true
is_rate_limited _ = false

unfoldable pub starts_with : Bytes → Bytes → Bool
starts_with s [] = true
starts_with [] (c ∷ pat) = false
starts_with (b ∷ s) (c ∷ pat) = eqb b c && starts_with s pat

-- strings.Index, counted on from `i`
unfoldable pub index_from : ℕ → Bytes → Bytes → Option ℕ
unfolding starts_with
index_from i pat [] = if starts_with [] pat then some i else none
index_from i pat (b ∷ s) =
    let later = index_from (suc i) pat s in if starts_with (b ∷ s) pat then some i else later

-- strings.Contains
abbrev pub contains_text : Bytes → Bytes → Bool
contains_text s pat = elim (index_from 0 pat s) [ none ↦ false | some _ ↦ true ]

abbrev pub rate_limit_stderr_patterns : List Bytes
rate_limit_stderr_patterns =
    codes "you've hit your limit"
    ∷ codes "hit your usage limit"
    ∷ codes "rate_limit_exceeded"
    ∷ codes "resource_exhausted"
    ∷ codes "quota exceeded"
    ∷ codes "too many requests"
    ∷ []

unfoldable pub any_pattern : Bytes → List Bytes → Bool
unfolding index_from
any_pattern lower [] = false
any_pattern lower (pat ∷ pats) = contains_text lower pat || any_pattern lower pats

unfoldable pub looks_like_rate_limit : (Bytes → Bytes) → Bytes → Bool
unfolding any_pattern
looks_like_rate_limit to_lower [] = false
looks_like_rate_limit to_lower (b ∷ s) = any_pattern (to_lower (b ∷ s)) rate_limit_stderr_patterns

-- tail[:strings.IndexAny(tail, "\n\r")], or all of it
unfoldable pub first_line : Bytes → Bytes
first_line [] = []
first_line (b ∷ s) = if eqb b 10 || eqb b 13 then [] else b ∷ first_line s

-- The white space of Unicode in UTF-8.
abbrev pub spaces : List Bytes
spaces =
    (9 ∷ [])
    ∷ (10 ∷ [])
    ∷ (11 ∷ [])
    ∷ (12 ∷ [])
    ∷ (13 ∷ [])
    ∷ (32 ∷ [])
    ∷ (194 ∷ 133 ∷ [])
    ∷ (194 ∷ 160 ∷ [])
    ∷ (225 ∷ 154 ∷ 128 ∷ [])
    ∷ (226 ∷ 128 ∷ 128 ∷ [])
    ∷ (226 ∷ 128 ∷ 129 ∷ [])
    ∷ (226 ∷ 128 ∷ 130 ∷ [])
    ∷ (226 ∷ 128 ∷ 131 ∷ [])
    ∷ (226 ∷ 128 ∷ 132 ∷ [])
    ∷ (226 ∷ 128 ∷ 133 ∷ [])
    ∷ (226 ∷ 128 ∷ 134 ∷ [])
    ∷ (226 ∷ 128 ∷ 135 ∷ [])
    ∷ (226 ∷ 128 ∷ 136 ∷ [])
    ∷ (226 ∷ 128 ∷ 137 ∷ [])
    ∷ (226 ∷ 128 ∷ 138 ∷ [])
    ∷ (226 ∷ 128 ∷ 168 ∷ [])
    ∷ (226 ∷ 128 ∷ 169 ∷ [])
    ∷ (226 ∷ 128 ∷ 175 ∷ [])
    ∷ (226 ∷ 129 ∷ 159 ∷ [])
    ∷ (227 ∷ 128 ∷ 128 ∷ [])
    ∷ []

-- How many bytes the space in front takes, 0 where there is none.
unfoldable pub space_width : List Bytes → Bytes → ℕ
unfolding starts_with
space_width [] s = 0
space_width (p ∷ ps) s = let rest = space_width ps s in if starts_with s p then length p else rest

-- The number counts the bytes that are left of the space found last.
unfoldable pub trim_left : List Bytes → ℕ → Bytes → Bytes
unfolding space_width
trim_left ps n [] = []
trim_left ps (suc n) (b ∷ s) = trim_left ps n s
trim_left ps zero (b ∷ s) = elim (space_width ps (b ∷ s)) [
  | zero ↦ b ∷ s
  | suc n ↦ trim_left ps n s
]

-- strings.TrimSpace
unfoldable pub trim_space : Bytes → Bytes
unfolding trim_left
trim_space s = reverse (trim_left (map reverse spaces) 0 (reverse (trim_left spaces 0 s)))

-- stderr[start:]
unfoldable pub slice_from : ℕ → Bytes → Outcome Bytes
slice_from start s = if leb start (length s) then done (drop start s) else panic

-- The cap of 128 bytes keeps shorter texts, the empty one included, as they are.
abbrev pub hint_of_tail : Outcome Bytes → Outcome Bytes
hint_of_tail panic = panic
hint_of_tail (done tail) = done (take 128 (trim_space (first_line tail)))

unfoldable pub extract_rate_limit_reset_hint : (Bytes → Bytes) → Bytes → Outcome Bytes
unfolding index_from first_line trim_space slice_from
extract_rate_limit_reset_hint to_lower [] = done []
extract_rate_limit_reset_hint to_lower (b ∷ s) =
    elim (index_from 0 (codes "resets ") (to_lower (b ∷ s))) [
      | none ↦ done []
      | some i ↦ hint_of_tail (slice_from (i + 7) (b ∷ s))
    ]

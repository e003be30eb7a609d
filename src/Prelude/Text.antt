-- ===== src/Prelude/Text.antt =====
-- Tests on texts.
use Prim.Native.String.append
use Prim.Native.String.{String, ◌++◌}
use mathlib.Core.Bool.{Bool, ◌||◌}
use mathlib.Core.Option.{Option, none, some}
use fraud_detection_lite.Prelude.Tests.{if◌then◌else◌}
use mathlib.Core.Path.{◌≡◌, ◌∙◌, ap, refl}
use text.Mathlib.TextEquality.{eq_iff}
use text.Mathlib.Text.{◌==◌}

-- strings.HasSuffix
unfoldable pub has_suffix : String → String → Bool
has_suffix String.[] suffix = String.[] == suffix
has_suffix (String.◌∷◌ c s) suffix = String.◌∷◌ c s == suffix || has_suffix s suffix

-- What is left of a text after a prefix, if it has it.
unfoldable pub after_prefix : String → String → Option String
after_prefix s String.[] = some s
after_prefix String.[] (String.◌∷◌ d prefix) = none
after_prefix (String.◌∷◌ c s) (String.◌∷◌ d prefix) =
    let remaining = after_prefix s prefix in
    if String.◌∷◌ c String.[] == String.◌∷◌ d String.[] then remaining else none

abbrev pub or_whole : String → Option String → String
or_whole s (some remaining) = remaining
or_whole s none = s

-- strings.TrimPrefix
unfoldable pub trim_prefix : String → String → String
unfolding after_prefix
trim_prefix s prefix = or_whole s (after_prefix s prefix)

test_trim_prefix : trim_prefix "Bearer abc" "Bearer " ≡ "abc"
unfolding trim_prefix
test_trim_prefix = refl

after_prefix-append : (s prefix : String) → after_prefix (prefix ++ s) prefix ≡ some s
unfolding after_prefix
after_prefix-append s String.[] = ap (λ t. after_prefix t String.[]) (append.nil s)
after_prefix-append s (String.◌∷◌ c prefix) =
    ap (λ t. after_prefix t (String.◌∷◌ c prefix)) (append.cons c prefix s)
    ∙ rw ((eq_iff (String.◌∷◌ c String.[]) (String.◌∷◌ c String.[])).1 refl)
        (after_prefix-append s prefix)

pub trim_prefix-append : (s prefix : String) → trim_prefix (prefix ++ s) prefix ≡ s
unfolding trim_prefix
trim_prefix-append s prefix = ap (or_whole (prefix ++ s)) (after_prefix-append s prefix)

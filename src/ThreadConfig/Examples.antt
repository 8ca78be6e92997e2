-- ===== src/ThreadConfig/Examples.antt =====
-- The parser on an entry with an affinity of [3, 1, 3] and the policy SCHED_FIFO.
use Prim.Native.String.{String}
use text.Mathlib.Text.{◌==◌ as ◌=ₛ◌}
use agnocast.Prelude.{
  ◌⊎◌, ℕ, ◌≡◌, ◌↔◌, refl, false, Option, none, some, List, [], ◌∷◌, ℤ, pos, if◌then◌else◌,
}
use agnocast.ThreadConfig.Policy.{
  fifo, parse_sched_policy, to_string, from_kernel_policy, to_kernel_policy, parse-to_string,
  from-to_kernel_policy,
}
use agnocast.ThreadConfig.Affinity.{contains, Increasing}
use agnocast.ThreadConfig.Attrs.{
  missing, scalar, sequence, Entry, SchedAttrs, default_attrs, parse_attrs, parse_affinity,
}
use agnocast.ThreadConfig.Parsed.{Parsed, Stand, parse_attrs-Parsed, parse_affinity-Canonical}

abbrev as_int : String → Option ℤ
as_int s = if s =ₛ "1" then some (pos 1) else if s =ₛ "3" then some (pos 3) else none

abbrev as_uint64 : String → Option ℕ
as_uint64 s = if s =ₛ "3" then some 3 else none

abbrev cpus : List (Option String)
cpus = some "3" ∷ some "1" ∷ some "3" ∷ []

abbrev entry : Entry
entry key =
    if key =ₛ "affinity"
    then sequence cpus
    else if key =ₛ "policy"
    then scalar "SCHED_FIFO"
    else if key =ₛ "priority"
    then scalar "3"
    else missing

abbrev attrs : SchedAttrs
attrs = record default_attrs { policy = some fifo; rt_priority = pos 3; affinity = 1 ∷ 3 ∷ [] }

parse_attrs-Parsed_example : Parsed (pos 7) attrs
unfolding parse_attrs
parse_attrs-Parsed_example = parse_attrs-Parsed as_int as_uint64 (pos 7) entry attrs refl

parse_affinity-Canonical_example :
    ((u : List ℕ) × (cs : List ℕ) × (parse_affinity as_int as_uint64 (pos 7) entry false ≡ some u)
      × Stand as_int as_uint64 (pos 7) cpus cs
      × Increasing 0 u
      × (contains 3 u ≡ contains 3 cs))
    ⊎ ((parse_affinity as_int as_uint64 (pos 7) entry false ≡ none)
        × ¬ ((cs : List ℕ) × Stand as_int as_uint64 (pos 7) cpus cs))
parse_affinity-Canonical_example =
    parse_affinity-Canonical as_int as_uint64 (pos 7) entry false cpus 3 refl

parse-to_string_example :
    (parse_sched_policy "SCHED_RR" ≡ some fifo) ↔ (to_string fifo ≡ "SCHED_RR")
parse-to_string_example = parse-to_string "SCHED_RR" fifo

from-to_kernel_policy_example : (from_kernel_policy 1 ≡ some fifo) ↔ (to_kernel_policy fifo ≡ 1)
from-to_kernel_policy_example = from-to_kernel_policy 1 fifo

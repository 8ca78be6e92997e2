-- ===== src/ThreadConfig/Attrs.antt =====
-- thread_config.cpp: the attributes of an entry. A YAML node is what the parser looks at of it, and an entry
-- gives the node of each key. An element of a sequence is `none` if it is no scalar. `as_int` and `as_uint64` are yaml-cpp's conversions of a scalar, `max_cpu`
-- the largest CPU number of the machine. `none` is an exception.
use Prim.Native.String.{String}
use text.Mathlib.Text.{◌==◌ as ◌=ₛ◌}
use agnocast.Prelude.{
  ℕ, Bool, true, false, ◌&&◌, ◌||◌, Option, none, some, List, [], ◌∷◌, ℤ, pos, negsuc, pos_part,
  ltb_ℤ, if◌then◌else◌,
}
use agnocast.ThreadConfig.Policy.{SchedPolicy, deadline, parse_sched_policy, is_cfs}
use agnocast.ThreadConfig.Affinity.{sort, unique}

infixl 5 ◌>>=◌
abbrev pub ◌>>=◌ : {A B : Type 0} → Option A → (A → Option B) → Option B
none >>= f = none
some a >>= f = f a

pub data Node : Type 0 where
  missing null other_node : Node
  scalar : String → Node
  sequence : List (Option String) → Node

abbrev pub Entry : Type 0
Entry = String → Node

pub record SchedAttrs : Type 0 where
  pub policy : Option SchedPolicy
  pub nice : ℤ
  pub rt_priority : ℤ
  pub runtime : ℕ
  pub period : ℕ
  pub deadline_time : ℕ
  pub affinity : List ℕ

abbrev pub default_attrs : SchedAttrs
default_attrs = record {
  policy = none;
  nice = pos 0;
  rt_priority = pos 0;
  runtime = 0;
  period = 0;
  deadline_time = 0;
  affinity = [];
}

unfoldable pub is_unset : Node → Bool → Bool
is_unset missing allow_unmanageable = true
is_unset null allow_unmanageable = true
is_unset (scalar s) allow_unmanageable = allow_unmanageable && (s =ₛ "UNMANAGEABLE")
is_unset (sequence l) allow_unmanageable = false
is_unset other_node allow_unmanageable = false

-- `node.as<T>()` by the conversion of a scalar.
abbrev pub convert : {A : Type 0} → (String → Option A) → Node → Option A
convert as_value (scalar s) = as_value s
convert as_value missing = none
convert as_value null = none
convert as_value (sequence l) = none
convert as_value other_node = none

-- A value within bounds.
abbrev pub within : ℤ → ℤ → ℤ → Option ℤ
within lo hi v = if ltb_ℤ v lo || ltb_ℤ hi v then none else some v

module _ (as_int : String → Option ℤ) (as_uint64 : String → Option ℕ) (max_cpu : ℤ) where
  unfoldable pub parse_nice : Entry → Bool → Option ℤ
  unfolding is_unset
  parse_nice entry allow_unmanageable =
      if is_unset (entry "nice") allow_unmanageable
      then none
      else do v ← convert as_int (entry "nice"); within (negsuc 19) (pos 19) v

  unfoldable pub parse_rt_priority : Entry → Bool → Option ℤ
  unfolding is_unset
  parse_rt_priority entry allow_unmanageable =
      if is_unset (entry "priority") allow_unmanageable
      then none
      else do v ← convert as_int (entry "priority"); within (pos 1) (pos 99) v

  -- The loop of `parse_affinity`.
  unfoldable pub read_cpus : List (Option String) → Option (List ℕ)
  read_cpus [] = some []
  read_cpus (node ∷ r) = do
    s ← node
    v ← as_int s
    cpu ← within (pos 0) max_cpu v
    cpus ← read_cpus r
    some (pos_part cpu ∷ cpus)

  unfoldable pub read_affinity : Node → Option (List ℕ)
  unfolding read_cpus sort unique
  read_affinity (sequence l) = do cpus ← read_cpus l; some (unique (sort cpus))
  read_affinity (scalar s) = none
  read_affinity missing = none
  read_affinity null = none
  read_affinity other_node = none

  unfoldable pub parse_affinity : Entry → Bool → Option (List ℕ)
  unfolding is_unset read_affinity
  parse_affinity entry allow_unmanageable =
      if is_unset (entry "affinity") allow_unmanageable
      then some []
      else read_affinity (entry "affinity")

  -- The fields of the policy's class.
  unfoldable pub parse_class : Entry → SchedPolicy → SchedAttrs → Option SchedAttrs
  unfolding parse_nice parse_rt_priority
  parse_class entry deadline a = do
    runtime ← convert as_uint64 (entry "runtime")
    period ← convert as_uint64 (entry "period")
    deadline_time ← convert as_uint64 (entry "deadline")
    some (record a { runtime = runtime; period = period; deadline_time = deadline_time })
  parse_class entry policy a =
      if is_cfs policy
      then (do nice ← parse_nice entry false; some (record a { nice = nice }))
      else (do priority ← parse_rt_priority entry false; some (record a { rt_priority = priority }))

  -- The attributes of an entry of `callback_groups` or of `non_ros_threads` in `parse_yaml`.
  unfoldable pub parse_attrs : Entry → Option SchedAttrs
  unfolding parse_affinity parse_class parse_sched_policy
  parse_attrs entry = do
    cpus ← parse_affinity entry false
    policy ← convert parse_sched_policy (entry "policy")
    parse_class entry policy (record default_attrs { affinity = cpus; policy = some policy })

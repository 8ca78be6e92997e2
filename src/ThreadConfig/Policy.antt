-- ===== src/ThreadConfig/Policy.antt =====
-- sched_policy.cpp: the table of the policies, with the lookups by policy, by name and by the kernel's
-- number (those of linux/sched.h).
use Prim.Native.String.{String}
use text.Mathlib.Text.{◌==◌ as ◌=ₛ◌}
use text.Mathlib.TextEquality.{eq_iff}
use agnocast.Prelude.{
  ℕ, ◌≡◌, ◌↔◌, refl, Bool, true, false, Option, none, some, List, [], ◌∷◌, ◌==◌, if◌then◌else◌,
  arith, sym,
}

pub data SchedPolicy : Type 0 where
  other batch idle fifo rr deadline : SchedPolicy

pub record PolicyEntry : Type 0 where
  pub policy : SchedPolicy
  pub name : String
  pub kernel_policy : ℕ
  pub cfs : Bool

-- The row of a policy: `k_policies` is indexed by the enumerator.
abbrev pub entry : SchedPolicy → PolicyEntry
entry other = record { policy = other; name = "SCHED_OTHER"; kernel_policy = 0; cfs = true }
entry batch = record { policy = batch; name = "SCHED_BATCH"; kernel_policy = 3; cfs = true }
entry idle = record { policy = idle; name = "SCHED_IDLE"; kernel_policy = 5; cfs = true }
entry fifo = record { policy = fifo; name = "SCHED_FIFO"; kernel_policy = 1; cfs = false }
entry rr = record { policy = rr; name = "SCHED_RR"; kernel_policy = 2; cfs = false }
entry deadline = record {
  policy = deadline;
  name = "SCHED_DEADLINE";
  kernel_policy = 6;
  cfs = false;
}

abbrev pub policies : List PolicyEntry
policies = entry other ∷ entry batch ∷ entry idle ∷ entry fifo ∷ entry rr ∷ entry deadline ∷ []

-- `std::find_if` by the name.
unfoldable pub find_name : String → List PolicyEntry → Option SchedPolicy
find_name name [] = none
find_name name (e ∷ r) = if e.name =ₛ name then some e.policy else find_name name r

unfoldable pub parse_sched_policy : String → Option SchedPolicy
unfolding find_name
parse_sched_policy name = find_name name policies

abbrev pub to_string : SchedPolicy → String
to_string policy = (entry policy).name

unfoldable pub find_kernel_policy : ℕ → List PolicyEntry → Option SchedPolicy
find_kernel_policy k [] = none
find_kernel_policy k (e ∷ r) =
    if e.kernel_policy == k then some e.policy else find_kernel_policy k r

unfoldable pub from_kernel_policy : ℕ → Option SchedPolicy
unfolding find_kernel_policy
from_kernel_policy k = find_kernel_policy k policies

abbrev pub to_kernel_policy : SchedPolicy → ℕ
to_kernel_policy policy = (entry policy).kernel_policy

abbrev pub is_cfs : SchedPolicy → Bool
is_cfs policy = (entry policy).cfs

-- A text parses to a policy exactly if it is the policy's name.
pub parse-to_string :
    (s : String) (p : SchedPolicy) → (parse_sched_policy s ≡ some p) ↔ (to_string p ≡ s)
unfolding parse_sched_policy
parse-to_string s p = (there, back p)
  where
    there : parse_sched_policy s ≡ some p → to_string p ≡ s
    there e = ground (
      arith,
      eq_iff "SCHED_OTHER" s,
      eq_iff "SCHED_BATCH" s,
      eq_iff "SCHED_IDLE" s,
      eq_iff "SCHED_FIFO" s,
      eq_iff "SCHED_RR" s,
      eq_iff "SCHED_DEADLINE" s,
    )

    back : (q : SchedPolicy) → to_string q ≡ s → parse_sched_policy s ≡ some q
    back other e = rw (sym e) refl
    back batch e = rw (sym e) refl
    back idle e = rw (sym e) refl
    back fifo e = rw (sym e) refl
    back rr e = rw (sym e) refl
    back deadline e = rw (sym e) refl

-- A number of the kernel stands for a policy exactly if it is the number of the policy.
pub from-to_kernel_policy :
    (k : ℕ) (p : SchedPolicy) → (from_kernel_policy k ≡ some p) ↔ (to_kernel_policy p ≡ k)
unfolding from_kernel_policy
from-to_kernel_policy k p = ground arith

-- ===== src/ThreadConfig/Parsed.antt =====
-- thread_config.cpp: what the attributes of an entry are if the parser takes it.
use Prim.Native.String.{String}
use mathlib.Core.Path.{subst}
use agnocast.Prelude.{
  ℕ, ◌≡◌, refl, sym, ◌⊎◌, inl, inr, Bool, true, false, Option, none, some, List, [], ◌∷◌, arith,
  leb, ℤ, pos, negsuc, pos_part, ◌≤ℤ◌, ◌==◌, All, Bool-cases, Option-cases,
}
use agnocast.ThreadConfig.Policy.{
  SchedPolicy, other, batch, idle, fifo, rr, deadline, parse_sched_policy,
}
use agnocast.ThreadConfig.Affinity.{
  insert, sort, unique, unique_after, contains, Increasing, canonical_Increasing,
  canonical_contains,
}
use agnocast.ThreadConfig.Attrs.{
  Node, sequence, scalar, missing, null, other_node, Entry, SchedAttrs, default_attrs, is_unset,
  convert, within, parse_nice, parse_rt_priority, read_cpus, read_affinity, parse_affinity,
  parse_class, parse_attrs,
}

All-insert : (P : ℕ → Type 0) (a : ℕ) (l : List ℕ) → P a → All P l → All P (insert a l)
unfolding insert
All-insert P a [] p s = (p, tt)
All-insert P a (b ∷ r) p s = elim (Bool-cases (leb a b)) [
  | inl e ↦ rw e (p, s)
  | inr e ↦ rw e (s.0, All-insert P a r p s.1)
]

All-sort : (P : ℕ → Type 0) (l : List ℕ) → All P l → All P (sort l)
unfolding sort
All-sort P [] s = tt
All-sort P (a ∷ r) s = All-insert P a (sort r) s.0 (All-sort P r s.1)

All-unique_after : (P : ℕ → Type 0) (a : ℕ) (l : List ℕ) → All P l → All P (unique_after a l)
unfolding unique_after
All-unique_after P a [] s = tt
All-unique_after P a (b ∷ r) s = elim (Bool-cases (a == b)) [
  | inl e ↦ rw e (All-unique_after P a r s.1)
  | inr e ↦ rw e (s.0, All-unique_after P b r s.1)
]

All-unique : (P : ℕ → Type 0) (l : List ℕ) → All P l → All P (unique l)
unfolding unique
All-unique P [] s = tt
All-unique P (a ∷ r) s = (s.0, All-unique_after P a r s.1)

-- The fields of the policy's class are within its bounds, those of the other classes as they start.
abbrev pub InClass : SchedPolicy → SchedAttrs → Type 0
InClass deadline a = (a.nice ≡ pos 0) × (a.rt_priority ≡ pos 0)
InClass other a = (negsuc 19 ≤ℤ a.nice) × (a.nice ≤ℤ pos 19) × (a.rt_priority ≡ pos 0)
InClass batch a = (negsuc 19 ≤ℤ a.nice) × (a.nice ≤ℤ pos 19) × (a.rt_priority ≡ pos 0)
InClass idle a = (negsuc 19 ≤ℤ a.nice) × (a.nice ≤ℤ pos 19) × (a.rt_priority ≡ pos 0)
InClass fifo a = (pos 1 ≤ℤ a.rt_priority) × (a.rt_priority ≤ℤ pos 99) × (a.nice ≡ pos 0)
InClass rr a = (pos 1 ≤ℤ a.rt_priority) × (a.rt_priority ≤ℤ pos 99) × (a.nice ≡ pos 0)

abbrev pub Cpus : ℤ → List ℕ → Type 0
Cpus max_cpu l = Increasing 0 l × All (λ c. pos c ≤ℤ max_cpu) l

pub record Parsed (max_cpu : ℤ) (a : SchedAttrs) : Type 0 where
  pub policy : SchedPolicy
  pub set : a.policy ≡ some policy
  pub class : InClass policy a
  pub cpus : Cpus max_cpu a.affinity

within_lem : (lo hi v u : ℤ) → within lo hi v ≡ some u → (u ≡ v) × (lo ≤ℤ v) × (v ≤ℤ hi)
within_lem lo hi v u e = ground arith

module _ (as_int : String → Option ℤ) (as_uint64 : String → Option ℕ) (max_cpu : ℤ) where
  read_cpus_lem :
      (l : List (Option String)) (cpus : List ℕ)
      → read_cpus as_int as_uint64 max_cpu l ≡ some cpus
      → All (λ c. pos c ≤ℤ max_cpu) cpus
  unfolding read_cpus
  read_cpus_lem [] cpus e = let z : cpus ≡ [] = ground arith in rw z tt
  read_cpus_lem (none ∷ r) cpus e = absurd (ground arith)
  read_cpus_lem (some s ∷ r) cpus e = elim (Option-cases (as_int s)) [
    | inl f ↦ absurd (ground arith)
    | inr (v, f) ↦ elim (Option-cases (within (pos 0) max_cpu v)) [
      | inl g ↦ absurd (ground arith)
      | inr (u, g) ↦ elim (Option-cases (read_cpus as_int as_uint64 max_cpu r)) [
        | inl h ↦ absurd (ground arith)
        | inr (cs, h) ↦
            let whole : cpus ≡ pos_part u ∷ cs = ground arith in
            rw whole (ground (arith, within_lem (pos 0) max_cpu v u g), read_cpus_lem r cs h)
      ]
    ]
  ]

  read_affinity_lem :
      (node : Node) (cpus : List ℕ)
      → read_affinity as_int as_uint64 max_cpu node ≡ some cpus
      → Cpus max_cpu cpus
  unfolding read_affinity
  read_affinity_lem (sequence l) cpus e =
      elim (Option-cases (read_cpus as_int as_uint64 max_cpu l)) [
        | inl f ↦ absurd (ground arith)
        | inr (cs, f) ↦
            let whole : cpus ≡ unique (sort cs) = ground arith in
            rw whole (
              canonical_Increasing cs,
              All-unique _ (sort cs) (All-sort _ cs (read_cpus_lem l cs f)),
            )
      ]
  read_affinity_lem (scalar s) cpus e = absurd (ground arith)
  read_affinity_lem missing cpus e = absurd (ground arith)
  read_affinity_lem null cpus e = absurd (ground arith)
  read_affinity_lem other_node cpus e = absurd (ground arith)

  parse_affinity_lem :
      (entry : Entry) (b : Bool) (cpus : List ℕ)
      → parse_affinity as_int as_uint64 max_cpu entry b ≡ some cpus
      → Cpus max_cpu cpus
  unfolding parse_affinity Increasing
  parse_affinity_lem entry b cpus e = elim (Bool-cases (is_unset (entry "affinity") b)) [
    | inl f ↦ let z : cpus ≡ [] = ground arith in rw z (tt, tt)
    | inr f ↦ read_affinity_lem (entry "affinity") cpus (ground arith)
  ]

  parse_class_lem :
      (entry : Entry) (p : SchedPolicy) (a u : SchedAttrs)
      → a.nice ≡ pos 0
      → a.rt_priority ≡ pos 0
      → parse_class as_int as_uint64 max_cpu entry p a ≡ some u
      → InClass p u × (u.policy ≡ a.policy) × (u.affinity ≡ a.affinity)
  unfolding parse_class parse_nice parse_rt_priority
  parse_class_lem entry deadline a u n r e = ground arith
  parse_class_lem entry other a u n r e = ground arith
  parse_class_lem entry batch a u n r e = ground arith
  parse_class_lem entry idle a u n r e = ground arith
  parse_class_lem entry fifo a u n r e = ground arith
  parse_class_lem entry rr a u n r e = ground arith

  -- Whatever yaml-cpp converts and however many CPUs there are: if the parser takes an entry, the policy
  -- is set; the CPU numbers are in increasing order, without a repetition, and of the machine; for the
  -- CFS policies `nice` is from -20 to 19, for FIFO and RR the priority is from 1 to 99, and each of the
  -- two is 0 where it does not belong to the policy.
  pub parse_attrs-Parsed :
      (entry : Entry) (a : SchedAttrs)
      → parse_attrs as_int as_uint64 max_cpu entry ≡ some a
      → Parsed max_cpu a
  unfolding parse_attrs
  parse_attrs-Parsed entry a e =
      elim (Option-cases (parse_affinity as_int as_uint64 max_cpu entry false)) [
        | inl f ↦ absurd (ground arith)
        | inr (cpus, f) ↦ elim (Option-cases (convert parse_sched_policy (entry "policy"))) [
          | inl g ↦ absurd (ground arith)
          | inr (p, g) ↦
              let (class, set, same) =
                parse_class_lem entry p (record default_attrs { affinity = cpus; policy = some p })
                  a refl refl (ground arith) in
              record {
                policy = p;
                set = set;
                class = class;
                cpus = subst (Cpus max_cpu) (sym same) (parse_affinity_lem entry false cpus f);
              }
        ]
      ]

  -- The elements of a list stand, in its order, for numbers of CPUs of the machine.
  abbrev pub Stand : List (Option String) → List ℕ → Type 0
  Stand [] [] = Unit {0}
  Stand [] (c ∷ cpus) = false ≡ true
  Stand (element ∷ r) [] = false ≡ true
  Stand (none ∷ r) (c ∷ cpus) = false ≡ true
  Stand (some s ∷ r) (c ∷ cpus) = (as_int s ≡ some (pos c)) × (pos c ≤ℤ max_cpu) × Stand r cpus

  -- The numbers were read, or there are none that the list stands for.
  abbrev ReadWell : List (Option String) → Option (List ℕ) → Type 0
  ReadWell l none = ¬ ((cpus : List ℕ) × Stand l cpus)
  ReadWell l (some cpus) = Stand l cpus

  -- What a first element and the others must be for the list to stand for numbers.
  parts-Stand :
      (s : String) (r : List (Option String))
      → ((c : ℕ) → (cpus : List ℕ) → as_int s ≡ some (pos c) → pos c ≤ℤ max_cpu → ¬ Stand r cpus)
      → ¬ ((cpus : List ℕ) × Stand (some s ∷ r) cpus)
  parts-Stand s r impossible ([], h) = absurd (ground arith)
  parts-Stand s r impossible (c ∷ cpus, h) = impossible c cpus h.0 h.1 h.2

  no_scalar : (r : List (Option String)) → ¬ ((cpus : List ℕ) × Stand (none ∷ r) cpus)
  no_scalar r ([], h) = absurd (ground arith)
  no_scalar r (c ∷ cpus, h) = absurd (ground arith)

  read_element :
      (s : String) (r : List (Option String)) (v : Option ℤ) (o : Option (List ℕ))
      → as_int s ≡ v
      → read_cpus as_int as_uint64 max_cpu r ≡ o
      → ReadWell r o
      → ReadWell (some s ∷ r) (read_cpus as_int as_uint64 max_cpu (some s ∷ r))
  unfolding read_cpus
  read_element s r none o e f w =
      rw (read_cpus, e) (parts-Stand s r (λ c cpus a h k. absurd (ground arith)))
  read_element s r (some v) o e f w = elim (Option-cases (within (pos 0) max_cpu v)) [
    | inl g ↦ rw (read_cpus, e, g) (parts-Stand s r (λ c cpus a h k. absurd (ground arith)))
    | inr (u, g) ↦ number u g o f w
  ]
    where
      number :
          (u : ℤ)
          → within (pos 0) max_cpu v ≡ some u
          → (o : Option (List ℕ)) → read_cpus as_int as_uint64 max_cpu r ≡ o
          → ReadWell r o
          → ReadWell (some s ∷ r) (read_cpus as_int as_uint64 max_cpu (some s ∷ r))
      number u g none f w = rw (read_cpus, e, g, f) (parts-Stand s r (λ c cpus a h k. w (cpus, k)))
      number u g (some cpus) f w = rw (read_cpus, e, g, f) (ground arith, ground arith, w)

  read_cpus-ReadWell :
      (l : List (Option String)) → ReadWell l (read_cpus as_int as_uint64 max_cpu l)
  unfolding read_cpus
  read_cpus-ReadWell [] = tt
  read_cpus-ReadWell (none ∷ r) = no_scalar r
  read_cpus-ReadWell (some s ∷ r) =
      read_element s r (as_int s) (read_cpus as_int as_uint64 max_cpu r) refl refl
        (read_cpus-ReadWell r)

  -- An affinity list is taken exactly if its elements stand for numbers of CPUs of the machine, from 0 to
  -- the largest one; the result is then increasing, without a repetition, and has the same numbers.
  pub parse_affinity-Canonical :
      (entry : Entry) (b : Bool) (l : List (Option String)) (c : ℕ)
      → entry "affinity" ≡ sequence l
      → ((u : List ℕ) × (cpus : List ℕ) × (parse_affinity as_int as_uint64 max_cpu entry b ≡ some u)
          × Stand l cpus
          × Increasing 0 u
          × (contains c u ≡ contains c cpus))
        ⊎ ((parse_affinity as_int as_uint64 max_cpu entry b ≡ none)
            × ¬ ((cpus : List ℕ) × Stand l cpus))
  unfolding parse_affinity read_affinity is_unset
  parse_affinity-Canonical entry b l c e =
      result (read_cpus as_int as_uint64 max_cpu l) refl (read_cpus-ReadWell l)
    where
      result :
          (o : Option (List ℕ))
          → read_cpus as_int as_uint64 max_cpu l ≡ o
          → ReadWell l o
          → ((u : List ℕ) × (cpus : List ℕ) × (parse_affinity as_int as_uint64 max_cpu entry b
                ≡ some u)
              × Stand l cpus
              × Increasing 0 u
              × (contains c u ≡ contains c cpus))
            ⊎ ((parse_affinity as_int as_uint64 max_cpu entry b ≡ none)
                × ¬ ((cpus : List ℕ) × Stand l cpus))
      result none f w = inr (rw (e, f) refl, w)
      result (some cpus) f w = inl (
        unique (sort cpus),
        cpus,
        rw (e, f) refl,
        w,
        canonical_Increasing cpus,
        canonical_contains c cpus,
      )

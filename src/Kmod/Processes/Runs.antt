-- ===== src/Kmod/Processes/Runs.antt =====
-- Every table of processes that the calls lead to.
use agnocast.Prelude.{
  ℕ, ◌≡◌, refl, Bool, true, false, not, Option, none, some, List, [], ◌∷◌, ◌==◌, arith, inl, inr,
  Bool-cases, Option-cases,
}
use agnocast.Kmod.State.{Process, Role}
use agnocast.Kmod.Lists.{all, select}
use agnocast.Kmod.Topic.Delivery.{find_process}
use agnocast.Kmod.Topic.Valid.Entries.{all-select}
use agnocast.Kmod.Memory.{Mempool, init_entries, assign_memory, assign_loop, free_memory}
use agnocast.Kmod.Memory.Maps.{is_well, free-well, assign-well, init-well}
use agnocast.Kmod.Memory.Users.{Assigned, users-assign_loop, contains-free_memory}
use agnocast.Kmod.Processes.{
  Table, given_pool, add_process, process_exit_cleanup, commit_exit_process, notify_bridge_shutdown,
  check_and_request_bridge_shutdown, update, delete, mark_exited, demote, new_process, is_daemon,
  is_taken, has_alive_unlink_daemon, has_alive_bridge_manager,
}
use agnocast.Kmod.Processes.Lone.{
  lone, has_pool, lone-select, lone-update, lone-new, unused_pool, mark_exited-Harmless,
  demote-Harmless,
}

pub record IsSafe (t : Table) : Type 0 where
  pub apart : lone t.processes ≡ true
  pub owned : all (has_pool t.pools) t.processes ≡ true
  pub well : all is_well t.pools ≡ true

-- What becomes of the owners of pools.
owned-other :
    (pools after : List Mempool) (l : List Process)
    → ((p : Process) → has_pool pools p ≡ true → has_pool after p ≡ true)
    → all (has_pool pools) l ≡ true
    → all (has_pool after) l ≡ true
unfolding all
owned-other pools after [] f h = refl
owned-other pools after (p ∷ l) f h = ground (arith, f p, owned-other pools after l f)

owned-demote :
    (pools : List Mempool) (pid : ℕ) (l : List Process)
    → all (has_pool pools) l ≡ true
    → all (has_pool pools) (update pid demote l) ≡ true
unfolding all update
owned-demote pools pid [] h = refl
owned-demote pools pid (p ∷ l) h = ground (arith, owned-demote pools pid l)

owned-exited :
    (pools : List Mempool) (pid : ℕ) (l : List Process)
    → all is_well pools ≡ true
    → all (has_pool pools) l ≡ true
    → all (has_pool (free_memory pid pools)) (update pid mark_exited l) ≡ true
unfolding all update
owned-exited pools pid [] w h = refl
owned-exited pools pid (p ∷ l) w h =
    ground (arith, contains-free_memory p.pid pid p.pool pools w, owned-exited pools pid l w)

owned-deleted :
    (pools : List Mempool) (pid : ℕ) (l : List Process)
    → all is_well pools ≡ true
    → all (has_pool pools) l ≡ true
    → all (has_pool (free_memory pid pools)) (delete pid l) ≡ true
unfolding all select
owned-deleted pools pid [] w h = refl
owned-deleted pools pid (p ∷ l) w h =
    ground (arith, contains-free_memory p.pid pid p.pool pools w, owned-deleted pools pid l w)

exit-IsSafe : (pid : ℕ) (t : Table) → IsSafe t → IsSafe (process_exit_cleanup pid t)
unfolding process_exit_cleanup
exit-IsSafe pid t s = elim (Option-cases (find_process pid t.processes)) [
  | inl e ↦ rw (e, process_exit_cleanup) s
  | inr (p, e) ↦
      rw (e, process_exit_cleanup)
        (elim (Bool-cases (is_daemon p)) [
          | inl d ↦ rw d record {
            apart = lone-select (λ q. not (q.pid == pid)) t.processes s.apart;
            owned = owned-deleted t.pools pid t.processes s.well s.owned;
            well = free-well pid t.pools s.well;
          }
          | inr d ↦ rw d record {
            apart = lone-update mark_exited pid t.processes mark_exited-Harmless s.apart;
            owned = owned-exited t.pools pid t.processes s.well s.owned;
            well = free-well pid t.pools s.well;
          }
        ])
]

demoted-IsSafe : (pid : ℕ) (t : Table) → IsSafe t → IsSafe (notify_bridge_shutdown pid t)
unfolding notify_bridge_shutdown
demoted-IsSafe pid t s = record {
  apart = lone-update demote pid t.processes demote-Harmless s.apart;
  owned = owned-demote t.pools pid t.processes s.owned;
  well = s.well;
}

request-IsSafe :
    (pid ns : ℕ) (t : Table) → IsSafe t → IsSafe (check_and_request_bridge_shutdown pid ns t).1
unfolding check_and_request_bridge_shutdown notify_bridge_shutdown
request-IsSafe pid ns t s = ground (arith, s, demoted-IsSafe pid t s)

deleted-IsSafe :
    (pid : ℕ) (t : Table) → IsSafe t → IsSafe (record t { processes = delete pid t.processes })
deleted-IsSafe pid t s = record {
  apart = lone-select (λ q. not (q.pid == pid)) t.processes s.apart;
  owned = all-select (has_pool t.pools) (λ q. not (q.pid == pid)) t.processes s.owned;
  well = s.well;
}

freed-IsSafe :
    (pid : ℕ) (t : Table)
    → IsSafe t
    → IsSafe (record { processes = delete pid t.processes; pools = free_memory pid t.pools })
freed-IsSafe pid t s = record {
  apart = lone-select (λ q. not (q.pid == pid)) t.processes s.apart;
  owned = owned-deleted t.pools pid t.processes s.well s.owned;
  well = free-well pid t.pools s.well;
}

commit-IsSafe :
    (ns : ℕ) (dropped : Option ℕ) (caller : ℕ) (t : Table)
    → IsSafe t
    → IsSafe (commit_exit_process ns dropped caller t).1
unfolding commit_exit_process
commit-IsSafe ns none caller t s = ground (arith, s, freed-IsSafe caller t s)
commit-IsSafe ns (some pid) caller t s = let u = deleted-IsSafe pid t s in ground (arith, u)

added-IsSafe :
    (pid ns : ℕ) (role : Role) (domain k : ℕ) (after : List Mempool) (t : Table)
    → IsSafe t
    → find_process pid t.processes ≡ none
    → is_taken role
        (has_alive_unlink_daemon ns t.processes)
        (has_alive_bridge_manager ns domain t.processes)
      ≡ false
    → Assigned pid t.pools (some k, after)
    → all is_well after ≡ true
    → IsSafe (record { processes = new_process pid ns role domain k ∷ t.processes; pools = after })
unfolding all lone
added-IsSafe pid ns role domain k after t s e f a w = record {
  apart = rw (lone-new t.pools pid ns role domain k t.processes e f a.0 s.owned) s.apart;
  owned = ground (
    arith,
    a.2 k,
    owned-other t.pools after t.processes
        (λ p h. ground (arith, a.2 p.pool, unused_pool t.pools k p a.0 h)) s.owned,
  );
  well = w;
}

-- A registration, where the allocator answered.
given-IsSafe :
    (pid ns : ℕ) (role : Role) (domain : ℕ) (out : Option ℕ × List Mempool) (t : Table)
    → IsSafe t
    → find_process pid t.processes ≡ none
    → is_taken role
        (has_alive_unlink_daemon ns t.processes)
        (has_alive_bridge_manager ns domain t.processes)
      ≡ false
    → Assigned pid t.pools out
    → all is_well out.1 ≡ true
    → IsSafe (given_pool pid ns role domain out t).table
given-IsSafe pid ns role domain (none, after) t s e f a w = s
given-IsSafe pid ns role domain (some k, after) t s e f a w =
    added-IsSafe pid ns role domain k after t s e f a w

-- The answer that the allocator gives, its own allocation failing or not.
answer-IsSafe :
    (c : Bool) (pid ns : ℕ) (role : Role) (domain : ℕ) (t : Table)
    → IsSafe t
    → find_process pid t.processes ≡ none
    → is_taken role
        (has_alive_unlink_daemon ns t.processes)
        (has_alive_bridge_manager ns domain t.processes)
      ≡ false
    → IsSafe (given_pool pid ns role domain (assign_memory c pid t.pools) t).table
unfolding assign_memory
answer-IsSafe false pid ns role domain t s e f = s
answer-IsSafe true pid ns role domain t s e f =
    given-IsSafe pid ns role domain (assign_loop pid t.pools) t s e f
      (users-assign_loop pid t.pools s.well) (assign-well pid t.pools s.well)

add-IsSafe :
    (b c : Bool) (pid ns : ℕ) (role : Role) (domain : ℕ) (t : Table)
    → IsSafe t
    → IsSafe (add_process b c pid ns role domain t).table
unfolding add_process
add-IsSafe b c pid ns role domain t s = elim (Option-cases (find_process pid t.processes)) [
  | inr (p, e) ↦ rw (e, add_process) (ground (arith, s))
  | inl e ↦ rw (e, add_process) (ground (arith, s, answer-IsSafe c pid ns role domain t s e))
]

-- The calls on the table.
pub data TableOp : Type 0 where
  add : Bool → Bool → ℕ → ℕ → Role → ℕ → TableOp
  exit notify : ℕ → TableOp
  request : ℕ → ℕ → TableOp
  commit : ℕ → Option ℕ → ℕ → TableOp

unfoldable pub table_step : TableOp → Table → Table
unfolding add_process process_exit_cleanup commit_exit_process notify_bridge_shutdown
    check_and_request_bridge_shutdown
table_step (add b c pid ns role domain) t = (add_process b c pid ns role domain t).table
table_step (exit pid) t = process_exit_cleanup pid t
table_step (notify pid) t = notify_bridge_shutdown pid t
table_step (request pid ns) t = (check_and_request_bridge_shutdown pid ns t).1
table_step (commit ns dropped caller) t = (commit_exit_process ns dropped caller t).1

unfoldable pub table_run : List TableOp → Table → Table
unfolding table_step
table_run [] t = t
table_run (op ∷ r) t = table_run r (table_step op t)

step-IsSafe : (op : TableOp) (t : Table) → IsSafe t → IsSafe (table_step op t)
unfolding table_step
step-IsSafe (add b c pid ns role domain) t s = add-IsSafe b c pid ns role domain t s
step-IsSafe (exit pid) t s = exit-IsSafe pid t s
step-IsSafe (notify pid) t s = demoted-IsSafe pid t s
step-IsSafe (request pid ns) t s = request-IsSafe pid ns t s
step-IsSafe (commit ns dropped caller) t s = commit-IsSafe ns dropped caller t s

from-IsSafe : (ops : List TableOp) (t : Table) → IsSafe t → IsSafe (table_run ops t)
unfolding table_run
from-IsSafe [] t s = s
from-IsSafe (op ∷ r) t s = from-IsSafe r (table_step op t) (step-IsSafe op t s)

-- From an empty table and the pools at the start of the allocator, every sequence of registrations, exits,
-- shutdown requests of bridge managers and polls of the unlink daemon leads to a table in which no two
-- processes have one id, no two daemons are in one namespace, no two live bridge managers in one domain of
-- a namespace, and no two processes that have not exited share a pool; each of these has its pool mapped;
-- and every pool counts exactly the processes that have it mapped, none of them twice.
pub table_run-IsSafe :
    (ops : List TableOp) (num addr size : ℕ)
    → IsSafe (table_run ops (record { processes = []; pools = init_entries num addr size }))
unfolding lone all
table_run-IsSafe ops num addr size =
    from-IsSafe ops (record { processes = []; pools = init_entries num addr size })
      record { apart = refl; owned = refl; well = init-well num addr size }

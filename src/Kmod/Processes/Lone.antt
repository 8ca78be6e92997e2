-- ===== src/Kmod/Processes/Lone.antt =====
-- Which processes may not be in the table together.
use agnocast.Prelude.{
  ℕ, ◌≡◌, refl, Bool, true, false, ◌&&◌, ◌||◌, not, none, List, [], ◌∷◌, ◌==◌, if◌then◌else◌, arith,
  inl, inr, Bool-cases,
}
use agnocast.Kmod.State.{Process, Role, application, bridge_manager, unlink_daemon}
use agnocast.Kmod.Lists.{all, select, contains}
use agnocast.Kmod.Topic.Delivery.{find_process}
use agnocast.Kmod.Topic.Valid.Entries.{all-select}
use agnocast.Kmod.Memory.{Mempool}
use agnocast.Kmod.Memory.Maps.{users}
use agnocast.Kmod.Processes.{
  is_manager, is_daemon, has_alive_bridge_manager, has_alive_unlink_daemon, update, mark_exited,
  demote, new_process, is_taken,
}

abbrev pub is_live_manager : Process → Bool
is_live_manager p = is_manager p && not p.exited

-- Two processes with one id, two daemons of one namespace, two live bridge managers of one domain, or two
-- live processes with one pool.
abbrev pub clash : Process → Process → Bool
clash p q =
    (p.pid == q.pid)
    || (is_daemon p && is_daemon q && (p.ipc_ns == q.ipc_ns))
    || (is_live_manager p
        && is_live_manager q
        && (p.ipc_ns == q.ipc_ns)
        && (p.domain_id == q.domain_id))
    || (not p.exited && not q.exited && (p.pool == q.pool))

-- No two processes of the table clash.
unfoldable pub lone : List Process → Bool
unfolding all
lone [] = true
lone (p ∷ r) = all (λ q. not (clash p q)) r && lone r

-- A live process has its pool mapped.
abbrev pub has_pool : List Mempool → Process → Bool
has_pool pools p = p.exited || contains p.pid (users p.pool pools)

pub lone-select : (q : Process → Bool) (l : List Process) → lone l ≡ true → lone (select q l) ≡ true
unfolding lone select all
lone-select q [] h = refl
lone-select q (p ∷ l) h = ground (arith, lone-select q l, all-select (λ r. not (clash p r)) q l)

-- A change that takes no clash away from a pair adds none.
abbrev pub Harmless : (Process → Process) → Type 0
Harmless f =
    (p q : Process) (a b : Bool)
    → clash p q ≡ false
    → clash (if a then f p else p) (if b then f q else q) ≡ false

pub mark_exited-Harmless : Harmless mark_exited
mark_exited-Harmless p q a b h = ground arith

pub demote-Harmless : Harmless demote
demote-Harmless p q a b h = ground arith

all-update :
    (f : Process → Process) (x : Process) (a : Bool) (pid : ℕ) (l : List Process)
    → Harmless f
    → all (λ q. not (clash x q)) l ≡ true
    → all (λ q. not (clash (if a then f x else x) q)) (update pid f l) ≡ true
unfolding all update
all-update f x a pid [] w h = refl
all-update f x a pid (p ∷ l) w h = ground (arith, w x p a (p.pid == pid), all-update f x a pid l w)

pub lone-update :
    (f : Process → Process) (pid : ℕ) (l : List Process)
    → Harmless f
    → lone l ≡ true
    → lone (update pid f l) ≡ true
unfolding lone update
lone-update f pid [] w h = refl
lone-update f pid (p ∷ l) w h =
    ground (arith, all-update f p (p.pid == pid) pid l w, lone-update f pid l w)

pub unused_pool :
    (pools : List Mempool) (k : ℕ) (p : Process)
    → users k pools ≡ []
    → has_pool pools p ≡ true
    → not p.exited && (k == p.pool) ≡ false
unused_pool pools k p u h = elim (Bool-cases (k == p.pool)) [
  | inl g ↦
      let same : k ≡ p.pool = ground arith in
      let v : users p.pool pools ≡ [] = rw⁻¹ same u in ground (arith, v)
  | inr g ↦ ground arith
]

-- A new process, where the tests of its registration passed and its pool has no user.
pub lone-new :
    (pools : List Mempool) (pid ns : ℕ) (role : Role) (domain k : ℕ) (l : List Process)
    → find_process pid l ≡ none
    → is_taken role (has_alive_unlink_daemon ns l) (has_alive_bridge_manager ns domain l) ≡ false
    → users k pools ≡ []
    → all (has_pool pools) l ≡ true
    → all (λ q. not (clash (new_process pid ns role domain k) q)) l ≡ true
unfolding all find_process has_alive_unlink_daemon has_alive_bridge_manager
lone-new pools pid ns role domain k [] e t u h = refl
lone-new pools pid ns application domain k (p ∷ l) e t u h =
    ground (arith, unused_pool pools k p, lone-new pools pid ns application domain k l)
lone-new pools pid ns bridge_manager domain k (p ∷ l) e t u h =
    ground (arith, unused_pool pools k p, lone-new pools pid ns bridge_manager domain k l)
lone-new pools pid ns unlink_daemon domain k (p ∷ l) e t u h =
    ground (arith, unused_pool pools k p, lone-new pools pid ns unlink_daemon domain k l)

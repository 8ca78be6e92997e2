-- ===== src/Kmod/Processes.antt =====
-- agnocast_ioctl.c and agnocast_internal.c: the table of processes, with the pools of the allocator. Whether
-- an allocation succeeds is an argument. The process id that a namespace sees is not modelled, nor is the
-- part of an exit that is of the topics, the bridges and the discovery agent.
pub mod Lone
pub mod Runs
mod Examples
use agnocast.Prelude.{
  ℕ, Bool, true, false, ◌&&◌, not, Option, none, some, List, [], ◌∷◌, ◌+◌, ◌==◌, if◌then◌else◌, leb,
}
use agnocast.Kmod.State.{
  Process, Role, application, bridge_manager, unlink_daemon, Errno, einval, enomem,
}
use agnocast.Kmod.Lists.{select}
use agnocast.Kmod.Topic.Delivery.{find_process}
use agnocast.Kmod.Memory.{Mempool, assign_memory, free_memory}

pub record Table : Type 0 where
  pub processes : List Process
  pub pools : List Mempool

abbrev pub is_manager : Process → Bool
is_manager p = elim p.role [ application ↦ false | bridge_manager ↦ true | unlink_daemon ↦ false ]

abbrev pub is_daemon : Process → Bool
is_daemon p = elim p.role [ application ↦ false | bridge_manager ↦ false | unlink_daemon ↦ true ]

unfoldable pub has_alive_bridge_manager : ℕ → ℕ → List Process → Bool
has_alive_bridge_manager ns domain [] = false
has_alive_bridge_manager ns domain (p ∷ r) =
    let rest = has_alive_bridge_manager ns domain r in
    if (ns == p.ipc_ns) && (p.domain_id == domain) && is_manager p && not p.exited
    then true
    else rest

unfoldable pub has_alive_unlink_daemon : ℕ → List Process → Bool
has_alive_unlink_daemon ns [] = false
has_alive_unlink_daemon ns (p ∷ r) =
    let rest = has_alive_unlink_daemon ns r in
    if (ns == p.ipc_ns) && is_daemon p then true else rest

-- AGNOCAST_DOMAIN_ID_NONE
abbrev pub domain_id_none : ℕ
domain_id_none = 4294967295

-- What a registration is told: whether the namespace has a daemon, and its domain a bridge manager.
pub record Added : Type 0 where
  pub result : Option Errno
  pub daemon_exists : Bool
  pub manager_exists : Bool
  pub address : Option ℕ
  pub table : Table

abbrev pub new_process : ℕ → ℕ → Role → ℕ → ℕ → Process
new_process pid ns role domain pool = record {
  exited = false;
  role = role;
  pid = pid;
  ipc_ns = ns;
  domain_id = elim role [
    | application ↦ domain
    | bridge_manager ↦ domain
    | unlink_daemon ↦ domain_id_none
  ];
  pool = pool;
}

abbrev pub is_reserved : Role → ℕ → Bool
is_reserved role domain = elim role [
  | application ↦ domain == domain_id_none
  | bridge_manager ↦ domain == domain_id_none
  | unlink_daemon ↦ false
]

-- A bridge manager or a daemon is not added where one exists.
abbrev pub is_taken : Role → Bool → Bool → Bool
is_taken application daemon manager = false
is_taken bridge_manager daemon manager = manager
is_taken unlink_daemon daemon manager = daemon

abbrev pub refused : Errno → Bool → Bool → Table → Added
refused e daemon manager t = record {
  result = some e;
  daemon_exists = daemon;
  manager_exists = manager;
  address = none;
  table = t;
}

-- What the registration does with the allocator's answer, where no memory is left and where a pool is given.
abbrev pub given_pool : ℕ → ℕ → Role → ℕ → Option ℕ × List Mempool → Table → Added
given_pool pid ns role domain (none, pools) t =
    refused enomem (has_alive_unlink_daemon ns t.processes)
      (has_alive_bridge_manager ns domain t.processes) t
given_pool pid ns role domain (some k, pools) t = record {
  result = none;
  daemon_exists = has_alive_unlink_daemon ns t.processes;
  manager_exists = has_alive_bridge_manager ns domain t.processes;
  address = some k;
  table = record { processes = new_process pid ns role domain k ∷ t.processes; pools = pools };
}

-- The role is one of the three.
unfoldable pub add_process : Bool → Bool → ℕ → ℕ → Role → ℕ → Table → Added
unfolding find_process has_alive_bridge_manager has_alive_unlink_daemon assign_memory
add_process allocates maps pid ns role domain t =
    let daemon = has_alive_unlink_daemon ns t.processes in
    let manager = has_alive_bridge_manager ns domain t.processes in
    if is_reserved role domain
    then refused einval false false t
    else elim (find_process pid t.processes) [
      | some p ↦ refused einval false false t
      | none ↦
          if is_taken role daemon manager
          then record {
            result = none;
            daemon_exists = daemon;
            manager_exists = manager;
            address = none;
            table = t;
          }
          else if not allocates
          then refused enomem daemon manager t
          else given_pool pid ns role domain (assign_memory maps pid t.pools) t
    ]

-- A process changed.
unfoldable pub update : ℕ → (Process → Process) → List Process → List Process
update pid f [] = []
update pid f (p ∷ r) = let rest = update pid f r in (if p.pid == pid then f p else p) ∷ rest

abbrev pub delete : ℕ → List Process → List Process
delete pid l = select (λ p. not (p.pid == pid)) l

abbrev pub mark_exited : Process → Process
mark_exited p = record p { exited = true }

abbrev pub demote : Process → Process
demote p = record p { role = application }

-- `agnocast_process_exit_cleanup`, up to the topics.
unfoldable pub process_exit_cleanup : ℕ → Table → Table
unfolding find_process update select free_memory
process_exit_cleanup pid t = elim (find_process pid t.processes) [
  | none ↦ t
  | some p ↦ record {
    processes = if is_daemon p then delete pid t.processes else update pid mark_exited t.processes;
    pools = free_memory pid t.pools;
  }
]

-- The first exited process of the namespace.
unfoldable pub get_exit_process : ℕ → List Process → Option ℕ
get_exit_process ns [] = none
get_exit_process ns (p ∷ r) =
    let rest = get_exit_process ns r in if (p.ipc_ns == ns) && p.exited then some p.pid else rest

unfoldable pub process_num_except_unlink_daemon : ℕ → List Process → ℕ
process_num_except_unlink_daemon ns [] = 0
process_num_except_unlink_daemon ns (p ∷ r) =
    let rest = process_num_except_unlink_daemon ns r in
    if (ns == p.ipc_ns) && not (is_daemon p) then rest + 1 else rest

-- `agnocast_commit_exit_process`, with the process to drop, if there is one, and the caller: whether the
-- daemon should exit.
unfoldable pub commit_exit_process : ℕ → Option ℕ → ℕ → Table → Bool × Table
unfolding find_process select free_memory process_num_except_unlink_daemon
commit_exit_process ns dropped caller t =
    let left : List Process = elim dropped [
      | none ↦ t.processes
      | some pid ↦ delete pid t.processes
    ] in
    let idle = process_num_except_unlink_daemon ns left == 0 in
    let kept = record t { processes = left } in
    let asked : Bool = elim dropped [ none ↦ true | some pid ↦ false ] in
    elim (find_process caller left) [
      | none ↦ (idle, kept)
      | some p ↦
          if idle && asked && is_daemon p
          then (true, record { processes = delete caller left; pools = free_memory caller t.pools })
          else (idle, kept)
    ]

unfoldable pub process_num_in_domain : ℕ → ℕ → List Process → ℕ
process_num_in_domain ns domain [] = 0
process_num_in_domain ns domain (p ∷ r) =
    let rest = process_num_in_domain ns domain r in
    if (ns == p.ipc_ns) && (p.domain_id == domain) && not (is_daemon p) then rest + 1 else rest

-- The domain of a process, 0 where it is not registered.
unfoldable pub process_domain_id : ℕ → List Process → ℕ
unfolding find_process
process_domain_id pid l = elim (find_process pid l) [ none ↦ 0 | some p ↦ p.domain_id ]

unfoldable pub notify_bridge_shutdown : ℕ → Table → Table
unfolding update
notify_bridge_shutdown pid t = record t { processes = update pid demote t.processes }

unfoldable pub check_and_request_bridge_shutdown : ℕ → ℕ → Table → Bool × Table
unfolding update process_num_in_domain process_domain_id
check_and_request_bridge_shutdown pid ns t =
    if leb (process_num_in_domain ns (process_domain_id pid t.processes) t.processes) 1
    then (true, record t { processes = update pid demote t.processes })
    else (false, t)

-- ===== src/Kmod/Topic/Held/Run.antt =====
-- A message that a subscriber references stays where it is: every run of the calls on a topic.
use agnocast.Prelude.{ℕ, ◌≡◌, Bool, true, false, ◌&&◌, not, List, [], ◌∷◌, arith}
use agnocast.Kmod.State.{Topic, Env}
use agnocast.Kmod.Topic.Steps.{
  Op, add_subscriber, add_publisher, publish, receive, take, release, leave_subscriber,
  leave_publisher, exit, step, run, drops,
}
use agnocast.Kmod.Topic.Held.Calls.{
  Holds, receive-Holds, take-Holds, publish-Holds, release-Holds, remove_subscriber-Holds,
  remove_publisher-Holds, exit-Holds, add_subscriber-Holds, add_publisher-Holds,
}

module _ (pool_start : ℕ → ℕ) (pool_size : ℕ) where
  -- No step of the run takes the subscriber's reference to the entry.
  unfoldable pub keeps : ℕ → ℕ → List (Env × Op) → Topic → Bool
  unfolding drops step
  keeps sub id [] t = true
  keeps sub id ((env, op) ∷ r) t =
      not (drops sub id op t) && keeps sub id r (step pool_start pool_size env op t)

  step-Holds :
      (sub id a : ℕ) (env : Env) (op : Op) (t : Topic)
      → drops sub id op t ≡ false
      → Holds sub id a t
      → Holds sub id a (step pool_start pool_size env op t)
  unfolding step drops
  step-Holds sub id a env (add_subscriber b f x) t d h = add_subscriber-Holds sub id a env b f x t h
  step-Holds sub id a env (add_publisher b c x) t d h = add_publisher-Holds sub id a env b c x t h
  step-Holds sub id a env (publish b p x) t d h =
      publish-Holds sub id a pool_start pool_size b env p x t h
  step-Holds sub id a env (receive s) t d h = receive-Holds sub id a env s t h
  step-Holds sub id a env (take s b) t d h = take-Holds sub id a env s b t h
  step-Holds sub id a env (release s i) t d h = release-Holds sub id a s i t d h
  step-Holds sub id a env (leave_subscriber s) t d h = remove_subscriber-Holds sub id a env s t d h
  step-Holds sub id a env (leave_publisher p) t d h = remove_publisher-Holds sub id a p t h
  step-Holds sub id a env (exit pid) t d h = exit-Holds sub id a env pid t d h

  -- Let a subscriber have its bit set in the entry of an id, whose message lies at an address. Through any
  -- sequence of registrations, publications, receives, takes, releases, removals and process exits on the
  -- topic, of which none releases that subscriber's reference to the entry, removes the subscriber, or
  -- is the exit of the subscriber's process, the entry stays in the tree with the same address and with
  -- the subscriber's bit set; also when its publisher publishes past its depth, leaves or dies.
  pub run-Holds :
      (sub id a : ℕ) (ops : List (Env × Op)) (t : Topic)
      → Holds sub id a t
      → keeps sub id ops t ≡ true
      → Holds sub id a (run pool_start pool_size ops t)
  unfolding run keeps
  run-Holds sub id a [] t h k = h
  run-Holds sub id a ((env, op) ∷ r) t h k =
      run-Holds sub id a r (step pool_start pool_size env op t)
        (step-Holds sub id a env op t (ground arith) h) (ground arith)

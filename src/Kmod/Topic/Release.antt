-- ===== src/Kmod/Topic/Release.antt =====
-- agnocast_ioctl.c: `agnocast_ioctl_release_message_entry_reference` once the topic is found.
use agnocast.Prelude.{ℕ, Option, none, some, List, [], ◌∷◌, leb, ◌==◌, if◌then◌else◌}
use agnocast.Kmod.State.{Entry, Topic, Errno, einval, max_topic_local_id}
use agnocast.Kmod.Lists.{contains, remove}
use agnocast.Kmod.Topic.Delivery.{find_entry}

abbrev pub clear : ℕ → Entry → Entry
clear sub e = record e { referencing = remove sub e.referencing }

-- `test_and_clear_bit` on the entry of the id.
unfoldable pub unmark : ℕ → ℕ → List Entry → List Entry
unfolding remove
unmark sub id [] = []
unmark sub id (e ∷ r) =
    let rest = unmark sub id r in (if e.entry_id == id then clear sub e else e) ∷ rest

unfoldable pub release_reference : ℕ → ℕ → Topic → Option Errno × Topic
unfolding unmark find_entry
release_reference sub id t = elim (find_entry id t.entries) [
  | none ↦ (some einval, t)
  | some e ↦
      if leb max_topic_local_id sub
      then (some einval, t)
      else if contains sub e.referencing
      then (none, record t { entries = unmark sub id t.entries })
      else (some einval, t)
]

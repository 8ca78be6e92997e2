-- ===== src/Kmod/Topic/Depth/Outcome.antt =====
-- The topic after a publication.
use agnocast.Prelude.{
  ℕ, ◌+◌, ◌-◌, ◌<◌, ◌≡◌, refl, sym, ap, ◌∙◌, true, false, ◌&&◌, not, List, [], ◌∷◌, ◌++◌, arith,
  ltb, leb, ◌==◌, if◌then◌else◌, length, map, Bool-cases, inl, inr,
}
use agnocast.Kmod.State.{Topic, Entry, Publisher, max_release_num}
use agnocast.Kmod.Lists.{select, take, all}
use agnocast.Kmod.Topic.Publish.{
  new_entry, insert_message_entry, release_loop, release_msgs_to_meet_depth, publish_checked,
  set_entries_num,
}
use agnocast.Kmod.Topic.Window.{ascending}
use agnocast.Kmod.Topic.Depth.{
  is_own, is_free, own, own_num, own_num-append, release_loop-releasable, take-own-append,
}
use agnocast.Kmod.Topic.Depth.Stays.{
  released_ids, without, without-none, release_loop-append, release_loop-fails_without,
  set_entries_num-twice,
}
use agnocast.Kmod.Topic.Valid.Entries.{ascending-append}

-- A topic with the entries `kept` and the new one at the end, `n` of the publisher's having left.
abbrev pub with_new : ℕ → ℕ → ℕ → List Entry → Topic → Topic
with_new id address n kept t = record t {
  entries =
      kept
      ++ (record {
        entry_id = t.current_entry_id;
        publisher_id = id;
        address = address;
        referencing = [];
      })
        ∷ [];
  publishers =
      map (λ p. if p.id == id then record p { entries_num = p.entries_num + 1 - n } else p)
        t.publishers;
  current_entry_id = t.current_entry_id + 1;
}

set_entries_num-map :
    (id : ℕ) (f : ℕ → ℕ) (l : List Publisher)
    → set_entries_num id f l
      ≡ map (λ p. if p.id == id then record p { entries_num = f p.entries_num } else p) l
unfolding set_entries_num
set_entries_num-map id f [] = refl
set_entries_num-map id f (p ∷ l) = let rest = set_entries_num-map id f l in ground (arith, rest)

length-map {ℓ} : {A : Type ℓ} (f : A → ℕ) (l : List A) → length (map f l) ≡ length l
length-map f [] = refl
length-map f (a ∷ l) = ground (arith, length-map f l)

module _ (pool_start : ℕ → ℕ) (pool_size : ℕ) (p : Publisher) (address : ℕ) (t : Topic)
    (ordered : ascending t.entries ≡ true)
    (below : all (λ e. ltb e.entry_id t.current_entry_id) t.entries ≡ true)
    (counted : p.entries_num ≡ own_num p.id t.entries) where
  abbrev added : Entry
  added = new_entry t.current_entry_id p.id address

  abbrev excess : ℕ
  excess = p.entries_num + 1 - p.qos_depth

  abbrev ids : List ℕ
  ids = released_ids p.id excess max_release_num t.entries

  kept :
      0 < p.qos_depth
      → (release_loop p.id excess max_release_num (t.entries ++ added ∷ [])).2
        ≡ without ids t.entries ++ added ∷ []
  kept d =
      release_loop-append p.id excess max_release_num t.entries added
        (ascending-append t.entries added ordered below) below (ground arith) (ground arith)

  released_num :
      0 < p.qos_depth
      → length (release_loop p.id excess max_release_num (t.entries ++ added ∷ [])).1 ≡ length ids
  unfolding own_num
  released_num d =
      let fits : excess < own_num p.id (t.entries ++ added ∷ []) =
        ground (arith, own_num-append p.id t.entries (added ∷ [])) in
      ap length (release_loop-releasable p.id excess max_release_num (t.entries ++ added ∷ []) fits)
      ∙ ap (λ o. length (map (λ e. e.address) (take max_release_num (select is_free o))))
          (take-own-append p.id excess t.entries (added ∷ []) (ground arith))
      ∙ length-map _ _
      ∙ sym (length-map _ _)

  -- The publishers and the entries of the topic, one by one.
  same_topic :
      (n : ℕ) (entries stay : List Entry) (publishers : List Publisher)
      → entries ≡ stay ++ added ∷ []
      → publishers ≡ (with_new p.id address n [] t).publishers
      → record t {
        entries = entries;
        publishers = publishers;
        current_entry_id = t.current_entry_id + 1;
      }
        ≡ with_new p.id address n stay t
  same_topic n entries stay publishers e f = cc

  counts_map :
      (n m : ℕ)
      → n ≡ m
      → set_entries_num p.id (λ c. c - n) (set_entries_num p.id (λ c. c + 1) t.publishers)
        ≡ (with_new p.id address m [] t).publishers
  counts_map n m e =
      set_entries_num-twice p.id _ _ t.publishers
      ∙ set_entries_num-map p.id _ t.publishers
      ∙ ap (λ k. (with_new p.id address k [] t).publishers) e

  -- What the call comes to once the new entry is linked.
  checked_few :
      leb (p.entries_num + 1) p.qos_depth ≡ true
      → (publish_checked pool_start pool_size p address t).topic ≡ record t {
        entries = t.entries ++ added ∷ [];
        publishers = set_entries_num p.id (λ n. n + 1) t.publishers;
        current_entry_id = t.current_entry_id + 1;
      }
  unfolding publish_checked insert_message_entry release_msgs_to_meet_depth
  checked_few e = ground arith

  checked_many :
      leb (p.entries_num + 1) p.qos_depth ≡ false
      → let loop = release_loop p.id excess max_release_num (t.entries ++ added ∷ []) in
        (publish_checked pool_start pool_size p address t).topic ≡ record t {
          entries = loop.2;
          publishers =
              set_entries_num p.id
                (λ n. n - length loop.1)
                (set_entries_num p.id (λ n. n + 1) t.publishers);
          current_entry_id = t.current_entry_id + 1;
        }
  unfolding publish_checked insert_message_entry release_msgs_to_meet_depth
  checked_many e = ground arith

  no_ids : leb (p.entries_num + 1) p.qos_depth ≡ true → ids ≡ []
  unfolding take select
  no_ids e = let z : excess ≡ 0 = ground arith in rw z refl

  minus_none : ◌≡◌ {A = ℕ → ℕ} (λ n. n + 1) (λ n. n + 1 - 0)
  minus_none i n = number n i
    where
      number : (n : ℕ) → n + 1 ≡ n + 1 - 0
      number n = omega arith

  pub publish_checked-topic :
      0 < p.qos_depth
      → (publish_checked pool_start pool_size p address t).topic
        ≡ with_new p.id address (length ids) (without ids t.entries) t
  publish_checked-topic d = elim (Bool-cases (leb (p.entries_num + 1) p.qos_depth)) [
    | inl e ↦
        checked_few e
        ∙ same_topic (length ids) _ _ _
            (ap (λ l. l ++ added ∷ [])
              (sym (ap (λ i. without i t.entries) (no_ids e) ∙ without-none t.entries)))
            (ap (λ f. set_entries_num p.id f t.publishers) minus_none
              ∙ set_entries_num-map p.id _ t.publishers
              ∙ ap (λ i. (with_new p.id address (length i) [] t).publishers) (sym (no_ids e)))
    | inr e ↦
        checked_many e ∙ same_topic (length ids) _ _ _ (kept d) (counts_map _ _ (released_num d))
  ]

  pub publish_checked-left :
      p.qos_depth ≡ 0
      → length (select is_free (own p.id t.entries)) < max_release_num
      → (publish_checked pool_start pool_size p address t).topic
        ≡ with_new p.id address
            (length (select is_free (own p.id t.entries)))
            (select (λ x. not (is_own p.id x && is_free x)) t.entries)
            t
  publish_checked-left d f =
      let (stay, gone) =
        release_loop-fails_without p.id excess max_release_num t.entries added (ground arith)
          (ground arith) f in
      checked_many (ground arith)
      ∙ same_topic _ _ _ _ stay (counts_map _ _ (ap length gone ∙ length-map _ _))

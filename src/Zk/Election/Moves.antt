-- ===== src/Zk/Election/Moves.antt =====
-- src/rb_zk.c: the functions that the ZooKeeper client runs, on a mutex that is sound.
use rb_monitor.Prelude.{
  ◌≡◌, refl, ap, inl, inr, Bool, true, false, Option, none, some, List, [], ◌∙◌, Bool-cases,
  some_each, arith,
}
use rb_monitor.Prelude.Int.{ℤ, pos, nonzero}
use rb_monitor.Prelude.Text.{Text}
use rb_monitor.Prelude.Text.Order.{text_lt}
use rb_monitor.Zk.{
  Mutex, to_buf, parent_node, rb_zk_mutex_set_lock, watch_previous, leader_previous_string,
  leader_get_children_complete, ask_children, create_mutex_node_complete, previous_leader_watcher,
  rb_zk_mutex_lock0, rb_zk_mutex_create_entry,
}
use rb_monitor.Zk.Names.{node_path, IsName, parent-node_path, prev_node_path-node_path}
use rb_monitor.Zk.Previous.{IsPrevious, leader_previous_string-IsPrevious}
use rb_monitor.Zk.Election.{after, begun, In}
use rb_monitor.Zk.Election.Sound.{
  Least, SeenBelow, Holds, IsPathBelow, IsSound, Has-some_each, In-Has,
}

module _ (dir : Text) (nodes given : List Text) where
  pub lock-IsSound :
      (rc : ℤ) (leaf : Text) (cb : Bool)
      → IsSound dir nodes given
          (begun (rb_zk_mutex_lock0 rc (rb_zk_mutex_create_entry leaf cb)).mutex)
  unfolding rb_zk_mutex_lock0 rb_zk_mutex_create_entry
  lock-IsSound rc leaf cb = elim (Bool-cases (nonzero rc)) [ inl e ↦ rw e tt | inr e ↦ rw e refl ]

  pub complete-IsSound :
      (rc : ℤ) (name : Text) (m : Mutex)
      → m.i_am_leader ≡ false
      → IsName dir name
      → IsSound dir nodes given
          (after name (create_mutex_node_complete (pos 0) (some (node_path dir name)) rc m))
  unfolding create_mutex_node_complete ask_children
  complete-IsSound rc name m unled named = elim (Bool-cases (nonzero rc)) [
    | inl e ↦ rw e tt
    | inr e ↦
        rw e
          (record { named = named; at = refl; leads = λ led. cc }, parent-node_path dir name named)
  ]

  pub not_answered-IsSound :
      (rc : ℤ) (name : Text) (m : Mutex)
      → Holds dir nodes name m
      → nonzero rc ≡ true
      → IsSound dir nodes given (after name (leader_get_children_complete rc [] (pos 0) m))
  unfolding leader_get_children_complete
  not_answered-IsSound rc name m h e = rw e h

  pub watch-IsSound :
      (name path : Text) (m : Mutex)
      → Holds dir nodes name m
      → IsPathBelow dir name path
      → IsSound dir nodes given (after name (previous_leader_watcher path m))
  unfolding previous_leader_watcher
  watch-IsSound name path m h (b, named, low, e) =
      (h, ap (λ t. (parent_node (to_buf t)).1) e ∙ parent-node_path dir b named)

  -- With no string below, the node is the least.
  Least-none :
      (name : Text) (strings : List Text)
      → SeenBelow nodes name strings
      → IsPrevious (some_each strings) name none
      → In name nodes
      → Least nodes name
  Least-none name strings seen p there s at = elim (Bool-cases (text_lt s name)) [
    | inl low ↦ absurd (ground (arith, p s (Has-some_each s strings (seen there s at low))))
    | inr high ↦ high
  ]

  look_at :
      (rc : ℤ) (name : Text) (strings : List Text) (m : Mutex) (r : Option Text)
      → Holds dir nodes name m
      → SeenBelow nodes name strings
      → ((s : Text) → In s strings → IsName dir s)
      → leader_previous_string (some_each strings) m.path none ≡ r
      → IsPrevious (some_each strings) name r
      → IsSound dir nodes given
          (after name (leader_get_children_complete (pos 0) (some_each strings) rc m))
  unfolding leader_get_children_complete rb_zk_mutex_set_lock watch_previous
  look_at rc name strings m none h seen names e p = rw e (record {
    named = h.named;
    at = h.at;
    leads = λ led there. Least-none name strings seen p there;
  })
  look_at rc name strings m (some b) h seen names e (at, low, greatest) =
      rw e (elim (Bool-cases (nonzero rc)) [
        | inl q ↦ rw q tt
        | inr q ↦ rw q (
            let named : IsName dir b = names b (In-Has b strings at) in
            (h, (b, named, low, prev_node_path-node_path m dir name b h.at h.named named)))
      ])

  pub look-IsSound :
      (rc : ℤ) (name : Text) (strings : List Text) (m : Mutex)
      → Holds dir nodes name m
      → SeenBelow nodes name strings
      → ((s : Text) → In s strings → IsName dir s)
      → IsSound dir nodes given
          (after name (leader_get_children_complete (pos 0) (some_each strings) rc m))
  look-IsSound rc name strings m h seen names =
      look_at rc name strings m _ h seen names
        (ap (λ t. leader_previous_string (some_each strings) t none) h.at)
        (leader_previous_string-IsPrevious (some_each strings) dir name h.named.plain)

-- ===== src/Tests/Election.antt =====
-- Mutexes on the directory /d: one becomes the leader; one finds that the node before is gone.
use rb_monitor.Prelude.{ℕ, ◌≡◌, refl, ap, inl, inr, true, false, none, some, [], ◌∷◌, arith}
use rb_monitor.Prelude.Int.{pos}
use rb_monitor.Prelude.Text.{Text, codes}
use rb_monitor.Prelude.Text.Order.{text_lt, strrchr}
use rb_monitor.Zk.{
  Mutex, parent_node, previous_loop, leader_previous_string, rb_zk_mutex_create_entry,
  rb_zk_mutex_set_lock, leader_get_children_complete, ask_children, create_mutex_node_complete,
  rb_zk_mutex_lock0,
}
use rb_monitor.Zk.Names.{node_path, IsName}
use rb_monitor.Zk.Previous.{IsPrevious, leader_previous_string-IsPrevious}
use rb_monitor.Zk.Election.{
  World, IsAbove, lock, make, complete, answer, look, start_world, Reachable, start, next,
}
use rb_monitor.Zk.Election.Safe.{
  IsConsistent, reachable-IsConsistent, IsLeader, reachable-one_leader,
}

abbrev dir : Text
dir = codes "/d"

abbrev leaf : Text
leaf = codes "/d/n"

abbrev first : Text
first = codes "1"

abbrev second : Text
second = codes "2"

abbrev third : Text
third = codes "3"

leader_previous_string-IsPrevious_example :
    IsPrevious
      (some third ∷ none ∷ some first ∷ [])
      second
      (leader_previous_string (some third ∷ none ∷ some first ∷ []) (node_path dir second) none)
unfolding strrchr
leader_previous_string-IsPrevious_example =
    leader_previous_string-IsPrevious (some third ∷ none ∷ some first ∷ []) dir second refl

leader_previous_string_finds :
    leader_previous_string (some third ∷ none ∷ some first ∷ []) (node_path dir second) none
    ≡ some first
unfolding leader_previous_string strrchr previous_loop text_lt
leader_previous_string_finds = refl

first-IsName : IsName dir first
unfolding strrchr
first-IsName = record { plain = refl; short = omega arith }

second-IsName : IsName dir second
unfolding strrchr
second-IsName = record { plain = refl; short = omega arith }

third-IsName : IsName dir third
unfolding strrchr
third-IsName = record { plain = refl; short = omega arith }

-- A world with the steps that lead to it.
abbrev Reached : Type 0
Reached = (w : World) × Reachable dir leaf w

second-IsAbove : IsAbove second (first ∷ [])
unfolding text_lt
second-IsAbove s (inl e) = ap (λ t. text_lt t second) e
second-IsAbove s (inr at) = elim at [ ]

third-IsAbove : IsAbove third (second ∷ first ∷ [])
unfolding text_lt
third-IsAbove s (inl e) = ap (λ t. text_lt t third) e
third-IsAbove s (inr (inl e)) = ap (λ t. text_lt t third) e
third-IsAbove s (inr (inr at)) = elim at [ ]

abbrev waiting_leaf : Mutex
waiting_leaf = record { path = leaf; i_am_leader = false; error_cb = true }

abbrev made : Reached
unfolding rb_zk_mutex_lock0 rb_zk_mutex_create_entry
made = (
  _,
  next _ _ (next start_world _ start (lock start_world 0 (pos 0) true refl))
      (make _ 0 first waiting_leaf refl first-IsName (λ s h. elim h [ ])),
)

abbrev at_first : Mutex
at_first = record { path = node_path dir first; i_am_leader = false; error_cb = true }

abbrev elected : Reached
unfolding rb_zk_mutex_lock0 rb_zk_mutex_create_entry create_mutex_node_complete ask_children
    parent_node strrchr leader_get_children_complete leader_previous_string previous_loop text_lt
    rb_zk_mutex_set_lock
elected = (
  _,
  next _ _
      (next _ _ (next _ _ made.1 (complete made.0 0 (pos 0) first waiting_leaf refl))
        (answer _ 0 first at_first refl))
      (look _ 0 (pos 0) first (first ∷ []) at_first refl),
)

elected_leads : IsLeader elected.0 0 first (record at_first { i_am_leader = true })
unfolding rb_zk_mutex_lock0 rb_zk_mutex_create_entry create_mutex_node_complete ask_children
    parent_node strrchr leader_get_children_complete leader_previous_string previous_loop text_lt
    rb_zk_mutex_set_lock
elected_leads = (refl, refl, refl, inl refl)

reachable-IsConsistent_example : IsConsistent dir elected.0
reachable-IsConsistent_example = reachable-IsConsistent dir leaf elected.0 elected.1

reachable-one_leader_example : ◌≡◌ {A = ℕ} 0 0
reachable-one_leader_example =
    reachable-one_leader dir leaf elected.0 0 0 first first (record at_first { i_am_leader = true })
      (record at_first { i_am_leader = true }) elected.1 elected_leads elected_leads

abbrev at_second : Mutex
at_second = record { path = node_path dir second; i_am_leader = false; error_cb = true }

-- Mutex 1 makes the second node and is answered.
abbrev both : Reached
unfolding rb_zk_mutex_lock0 rb_zk_mutex_create_entry create_mutex_node_complete ask_children
    parent_node strrchr leader_get_children_complete leader_previous_string previous_loop text_lt
    rb_zk_mutex_set_lock
both = (
  _,
  next _ _
      (next _ _
        (next _ _ (next _ _ made.1 (lock made.0 1 (pos 0) true refl))
          (make _ 1 second waiting_leaf refl second-IsName second-IsAbove))
        (complete _ 1 (pos 0) second waiting_leaf refl))
      (answer _ 1 second at_second refl),
)

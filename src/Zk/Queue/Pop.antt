-- ===== src/Zk/Queue/Pop.antt =====
-- src/rb_zk.c: a pop of the queue, from the mutex to the deletion, and how it fails.
use rb_monitor.Prelude.{
  ℕ, ◌+◌, ◌≡◌, refl, Bool, true, false, ◌||◌, Option, none, some, List, [], ◌∷◌, ◌++◌, inl, inr,
  ◌⊎◌, Option-cases,
}
use rb_monitor.Prelude.Int.{ℤ, pos, nonzero, ltb_ℤ}
use rb_monitor.Prelude.Text.{Text}
use rb_monitor.Zk.{slash}
use rb_monitor.Zk.Previous.{Has}
use rb_monitor.Zk.Queue.Minimum.{IsMinimum, min_str-IsMinimum}
use rb_monitor.Zk.Queue.{
  QueueElement, QueueCall, QueueRun, aget_children, aget, adelete, data_cb, delete_cb, error_cb,
  mutex_unlock, ◌andthen◌, new_queue_element, queue_dir, rb_zk_queue_element_decref, min_str,
  choose, get_chosen, pop_chosen, rb_zk_queue_delete_completed, rb_zk_queue_get_element,
  rb_zk_queue_pop_nolock, rb_zk_queue_child_watcher, rb_zk_queue_pop_minimum0,
  rb_zk_queue_mutex_status_change, rb_zk_queue_pop,
}

-- The answers that a pop gets: of zoo_aget_children, its children and their code, of zoo_aget, the
-- value and its code, of zoo_adelete, and the code of the deletion.
pub record PopAnswers : Type 0 where
  pub aget_children_rc : ℤ
  pub children_rc : ℤ
  pub children : List (Option Text)
  pub aget_rc : ℤ
  pub value_rc : ℤ
  pub value : Text
  pub adelete_rc : ℤ
  pub deleted_rc : ℤ

-- The functions that run once the mutex is held, each when the one before is answered.
abbrev pub pop_once : PopAnswers → QueueElement → QueueRun
pop_once a qelm =
    rb_zk_queue_mutex_status_change true a.aget_children_rc qelm
    andthen rb_zk_queue_pop_minimum0 a.children_rc a.children false a.aget_rc
    andthen rb_zk_queue_get_element a.value_rc a.value a.adelete_rc
    andthen rb_zk_queue_delete_completed a.deleted_rc

abbrev pub failed : PopAnswers → Bool
failed a =
    ltb_ℤ a.aget_children_rc (pos 0)
    || (ltb_ℤ a.children_rc (pos 0) || (nonzero a.aget_rc || ltb_ℤ a.value_rc (pos 0)))

-- The element of rb_zk_queue_pop.
abbrev pub popping : Text → QueueElement
popping path = rb_zk_queue_pop (new_queue_element path)

abbrev pub chosen_path : Text → Text → Text
chosen_path path minimum = queue_dir (popping path) ++ slash ∷ minimum

or_false : (x y : Bool) → (x || y) ≡ false → (x ≡ false) × (y ≡ false)
or_false true y h = cc
or_false false y h = (refl, h)

or_true : (x y : Bool) → (x || y) ≡ true → (x ≡ true) ⊎ ((x ≡ false) × (y ≡ true))
or_true true y h = inl refl
or_true false y h = inr (refl, h)

none_failed :
    (a : PopAnswers)
    → failed a ≡ false
    → (ltb_ℤ a.aget_children_rc (pos 0) ≡ false)
      × (ltb_ℤ a.children_rc (pos 0) ≡ false)
      × (nonzero a.aget_rc ≡ false)
      × (ltb_ℤ a.value_rc (pos 0) ≡ false)
none_failed a ok =
    let (asked, rest) = or_false (ltb_ℤ a.aget_children_rc (pos 0)) _ ok in
    let (listed, rest') = or_false (ltb_ℤ a.children_rc (pos 0)) _ rest in
    let (got, read) = or_false (nonzero a.aget_rc) _ rest' in (asked, listed, got, read)

chosen_lem :
    (path minimum : Text) (a : PopAnswers)
    → min_str a.children ≡ some minimum
    → failed a ≡ false
    → ltb_ℤ a.adelete_rc (pos 0) ≡ false
    → pop_once a (popping path) ≡ record {
      calls =
          aget_children (queue_dir (popping path))
          ∷ aget (chosen_path path minimum)
          ∷ data_cb a.value_rc a.value
          ∷ adelete (chosen_path path minimum)
          ∷ delete_cb a.deleted_rc
          ∷ mutex_unlock
          ∷ [];
      element = none;
    }
unfolding rb_zk_queue_mutex_status_change rb_zk_queue_pop_nolock rb_zk_queue_pop_minimum0 pop_chosen
    get_chosen choose rb_zk_queue_get_element rb_zk_queue_delete_completed
    rb_zk_queue_element_decref rb_zk_queue_pop new_queue_element
chosen_lem path minimum a e ok deleted =
    let (asked, listed, got, read) = none_failed a ok in
    rw asked (rw listed (rw e (rw got (rw read (rw deleted refl)))))

-- The calls of a pop that takes the child `minimum`.
abbrev pub taking : Text → Text → PopAnswers → List QueueCall
taking path minimum a =
    aget_children (queue_dir (popping path))
    ∷ aget (chosen_path path minimum)
    ∷ data_cb a.value_rc a.value
    ∷ adelete (chosen_path path minimum)
    ∷ delete_cb a.deleted_rc
    ∷ mutex_unlock
    ∷ []

taken :
    (path s : Text) (a : PopAnswers) (o : Option Text)
    → Has s a.children
    → failed a ≡ false
    → ltb_ℤ a.adelete_rc (pos 0) ≡ false
    → min_str a.children ≡ o
    → IsMinimum a.children o
    → (minimum : Text) × IsMinimum a.children (some minimum)
      × (pop_once a (popping path) ≡ record { calls = taking path minimum a; element = none })
taken path s a none there ok deleted e h = absurd (h s there)
taken path s a (some minimum) there ok deleted e h =
    (minimum, h, chosen_lem path minimum a e ok deleted)

-- A pop of a queue that has an element, of which no call fails, reads the least child of the
-- directory, whatever the order of the children and the null pointers between them, passes its value
-- on, deletes it, and only then unlocks the mutex and frees the element.
pub pop_once_takes_minimum :
    (path s : Text) (a : PopAnswers)
    → Has s a.children
    → failed a ≡ false
    → ltb_ℤ a.adelete_rc (pos 0) ≡ false
    → (minimum : Text) × IsMinimum a.children (some minimum)
      × (pop_once a (popping path) ≡ record { calls = taking path minimum a; element = none })
pop_once_takes_minimum path s a there ok deleted =
    taken path s a (min_str a.children) there ok deleted refl (min_str-IsMinimum a.children)

abbrev pub count_error : QueueCall → ℕ
count_error (error_cb cause rc) = 1
count_error _ = 0

abbrev pub count_unlock : QueueCall → ℕ
count_unlock mutex_unlock = 1
count_unlock _ = 0

-- How often the error callback is called, and the mutex unlocked.
abbrev pub errors : List QueueCall → ℕ
errors [] = 0
errors (call ∷ calls) = count_error call + errors calls

abbrev pub unlocks : List QueueCall → ℕ
unlocks [] = 0
unlocks (call ∷ calls) = count_unlock call + unlocks calls

-- Whichever call of a pop fails up to the read of the value, the error callback is called once and
-- the element is freed; but the mutex that is held is not unlocked.
pub pop_once_fails :
    (path minimum : Text) (a : PopAnswers)
    → min_str a.children ≡ some minimum
    → failed a ≡ true
    → (errors (pop_once a (popping path)).calls ≡ 1)
      × (unlocks (pop_once a (popping path)).calls ≡ 0)
      × ((pop_once a (popping path)).element ≡ none)
unfolding rb_zk_queue_mutex_status_change rb_zk_queue_pop_nolock rb_zk_queue_pop_minimum0 pop_chosen
    get_chosen choose rb_zk_queue_get_element rb_zk_queue_delete_completed
    rb_zk_queue_element_decref rb_zk_queue_pop new_queue_element
pop_once_fails path minimum a e bad = elim (or_true (ltb_ℤ a.aget_children_rc (pos 0)) _ bad) [
  | inl asked ↦ rw asked (refl, refl, refl)
  | inr later ↦ rw later.0 (elim (or_true (ltb_ℤ a.children_rc (pos 0)) _ later.1) [
    | inl listed ↦ rw listed (refl, refl, refl)
    | inr later' ↦ rw later'.0 (
        rw e (elim (or_true (nonzero a.aget_rc) _ later'.1) [
          | inl got ↦ rw got (refl, refl, refl)
          | inr last ↦ rw last.0 (rw last.1 (refl, refl, refl))
        ]))
  ])
]

-- The one call behind the answer to a watch.
abbrev pub after_watch : Text → Option Text → QueueCall
after_watch path none = aget_children (queue_dir (popping path))
after_watch path (some minimum) = aget (chosen_path path minimum)

-- When the children are asked for with a watch and there is one by then, it is chosen, and an event
-- of the watch then makes no second pop; when there is none, the event makes the pop.
pub watched_pops_once :
    (path : Text) (rc aget_children_rc : ℤ) (children : List (Option Text))
    → ltb_ℤ rc (pos 0) ≡ false
    → ltb_ℤ aget_children_rc (pos 0) ≡ false
    → (rb_zk_queue_pop_minimum0 rc children true (pos 0) (popping path)
        andthen rb_zk_queue_child_watcher true aget_children_rc).calls
      ≡ after_watch path (min_str children) ∷ []
unfolding rb_zk_queue_mutex_status_change rb_zk_queue_pop_nolock rb_zk_queue_pop_minimum0 pop_chosen
    get_chosen choose rb_zk_queue_get_element rb_zk_queue_delete_completed
    rb_zk_queue_element_decref rb_zk_queue_pop new_queue_element rb_zk_queue_child_watcher
watched_pops_once path rc aget_children_rc children listed asked =
    rw listed (elim (Option-cases (min_str children)) [
      | inl e ↦ rw e (rw asked refl)
      | inr found ↦ let (minimum, e) = found in rw e refl
    ])

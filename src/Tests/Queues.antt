-- ===== src/Tests/Queues.antt =====
-- The queue of many processes, after two pushes and a pop.
use rb_monitor.Prelude.{◌≡◌, subst, sym, refl, inl, inr, true, false, [], ◌∷◌, ◌++◌, some_each}
use rb_monitor.Prelude.Int.{pos}
use rb_monitor.Prelude.Text.{Text, codes}
use rb_monitor.Prelude.Text.Order.{text_lt}
use rb_monitor.Zk.Election.{In, IsAbove}
use rb_monitor.Zk.Queue.{
  QueueElement, choose, min_str, min_loop, new_queue_element, rb_zk_queue_pop,
  rb_zk_queue_pop_nolock, pop_chosen, get_chosen, rb_zk_queue_delete_completed,
  rb_zk_queue_get_element, rb_zk_queue_pop_minimum0, rb_zk_queue_mutex_status_change,
  rb_zk_queue_element_decref,
}
use rb_monitor.Zk.Queue.Pop.{popping}
use rb_monitor.Zk.Queue.Fifo.{
  Queue, push, obtain, answer, list, read, delete, free, listing, listed, getting, deleting,
  empty_queue, Reachable, start, next, values, ran, node_of_queue,
}
use rb_monitor.Zk.Queue.Fifo.Stages.{to_get}
use rb_monitor.Zk.Queue.Fifo.Order.{reachable-fifo}

abbrev queue_path : Text
queue_path = codes "/q/e"

abbrev first_name : Text
first_name = codes "s0"

abbrev second_name : Text
second_name = codes "s1"

second-IsAbove : IsAbove second_name (first_name ∷ [])
unfolding text_lt
second-IsAbove s (inl e) = subst (λ t. text_lt t second_name ≡ true) (sym e) refl
second-IsAbove s (inr at) = elim at [ ]

abbrev one_pushed : Queue
one_pushed = record empty_queue { nodes = (first_name, codes "a") ∷ []; pushed = codes "a" ∷ [] }

abbrev two_pushed : Queue
two_pushed = record empty_queue {
  nodes = (first_name, codes "a") ∷ (second_name, codes "b") ∷ [];
  pushed = codes "a" ∷ codes "b" ∷ [];
}

abbrev with_mutex : QueueElement
with_mutex = popping queue_path

abbrev obtained : Queue
obtained = ran (rb_zk_queue_mutex_status_change true (pos 0) with_mutex) two_pushed

abbrev answered : Queue
answered = record obtained { stage = listed false (second_name ∷ first_name ∷ []) with_mutex }

abbrev asked : Queue
asked =
    ran
      (rb_zk_queue_pop_minimum0 (pos 0) (some_each (second_name ∷ first_name ∷ [])) false (pos 0)
        with_mutex)
      answered

abbrev chosen : QueueElement
chosen = choose first_name false with_mutex

abbrev got : Queue
got = ran (rb_zk_queue_get_element (pos 0) (codes "a") (pos 0) chosen) asked

abbrev one_popped : Queue
one_popped =
    ran (rb_zk_queue_delete_completed (pos 0) chosen)
      (record got { nodes = (second_name, codes "b") ∷ [] })

obtained_stage : obtained.stage ≡ listing false with_mutex
unfolding rb_zk_queue_mutex_status_change rb_zk_queue_pop_nolock
obtained_stage = refl

asked_stage : asked.stage ≡ getting (node_of_queue queue_path first_name) chosen
unfolding rb_zk_queue_pop_minimum0 pop_chosen get_chosen choose min_str min_loop text_lt
asked_stage = refl

got_stage : got.stage ≡ deleting (node_of_queue queue_path first_name) chosen
unfolding rb_zk_queue_get_element choose
got_stage = refl

one_popped_lem : (one_popped.popped ≡ codes "a" ∷ []) × (one_popped.stage ≡ free)
unfolding rb_zk_queue_delete_completed rb_zk_queue_get_element rb_zk_queue_pop_minimum0 pop_chosen
    get_chosen choose min_str min_loop text_lt rb_zk_queue_mutex_status_change
    rb_zk_queue_pop_nolock rb_zk_queue_pop new_queue_element rb_zk_queue_element_decref
one_popped_lem = (refl, refl)

swapped : {a b : Text} (s : Text) → In s (a ∷ b ∷ []) → In s (b ∷ a ∷ [])
swapped s (inl e) = inr (inl e)
swapped s (inr (inl e)) = inl e
swapped s (inr (inr at)) = elim at [ ]

obtained-Reachable : Reachable queue_path obtained
obtained-Reachable =
    next two_pushed obtained
      (next one_pushed two_pushed
        (next empty_queue one_pushed start
          (push empty_queue first_name (codes "a") (λ s at. elim at [ ])))
        (push one_pushed second_name (codes "b") second-IsAbove))
      (obtain two_pushed (pos 0) refl)

one_popped-Reachable : Reachable queue_path one_popped
one_popped-Reachable =
    next got one_popped
      (next asked got
        (next answered asked
          (next obtained answered obtained-Reachable (
            answer obtained false (second_name ∷ first_name ∷ []) with_mutex obtained_stage swapped
              swapped))
          (list answered false (second_name ∷ first_name ∷ []) (pos 0) with_mutex refl))
        (read asked (pos 0) first_name (codes "a") [] ((second_name, codes "b") ∷ []) chosen
          asked_stage refl refl))
      (delete got first_name (codes "a") [] ((second_name, codes "b") ∷ []) chosen got_stage refl)

reachable-fifo_example :
    one_popped.popped ++ values (to_get one_popped.stage one_popped.nodes) ≡ one_popped.pushed
reachable-fifo_example = reachable-fifo queue_path one_popped one_popped-Reachable

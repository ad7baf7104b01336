-- ===== src/Zk/Queue/Fifo/Stages.antt =====
-- src/rb_zk.c: what the functions of a pop leave, whatever the server answers.
use rb_monitor.Prelude.{
  ◌≡◌, refl, ap, sym, subst, ◌∙◌, inl, inr, Bool, true, false, Bool-cases, none, some, Option-cases,
  List, [], ◌∷◌, ◌++◌, drop, some_each, if◌then◌else◌,
}
use rb_monitor.Prelude.Int.{ℤ, pos, ltb_ℤ, nonzero}
use rb_monitor.Prelude.Text.{Text, codes}
use rb_monitor.Zk.{slash, parent_node, to_buf}
use rb_monitor.Zk.Queue.{
  QueueElement, QueueRun, min_str, new_queue_element, adelete, data_cb, error_cb, queue_error,
  choose, get_chosen, pop_chosen, rb_zk_queue_element_decref, rb_zk_queue_delete_completed,
  rb_zk_queue_get_element, rb_zk_queue_child_watcher, rb_zk_queue_pop, rb_zk_queue_pop_nolock,
  rb_zk_queue_pop_minimum0, path_or_empty,
}
use rb_monitor.Zk.Queue.Pop.{popping}
use rb_monitor.Zk.Queue.Minimum.{IsMinimum, min_str-IsMinimum}
use rb_monitor.Zk.Queue.Fifo.{
  Popping, free, listing, listed, getting, deleting, watching, stuck, left_by, delivered, names,
  node_of_queue,
}
use rb_monitor.Zk.Queue.Fifo.Nodes.{
  Ascending, IsFirst, IsAnswer, least-IsFirst, IsAnswer-append, IsFirst-append,
}

-- The nodes whose values are still to be got: the first one is gone for the pop that deletes it.
abbrev pub to_get : Popping → List (Text × Text) → List (Text × Text)
to_get (deleting node qelm) nodes = drop 1 nodes
to_get _ nodes = nodes

module _ (path : Text) where
  -- The element of the pop, to which nobody else has a reference.
  pub record Mine (qelm : QueueElement) : Type 0 where
    pub path_of : qelm.path ≡ path
    pub refcnt : qelm.refcnt ≡ 1

  -- The pop is at the first node.
  unfoldable pub AtFirst : List (Text × Text) → Text → Type 0
  AtFirst nodes node = (name : Text) × IsFirst nodes name × (node ≡ node_of_queue path name)

  unfoldable pub IsSound : List (Text × Text) → Popping → Type 0
  IsSound nodes free = Unit
  IsSound nodes (listing watcher_setted qelm) = Mine qelm
  IsSound nodes (listed watcher_setted children qelm) = Mine qelm × IsAnswer nodes children
  IsSound nodes (getting node qelm) =
      Mine qelm × (qelm.queue_element_path ≡ some node) × AtFirst nodes node
  IsSound nodes (deleting node qelm) = Mine qelm × AtFirst nodes node
  IsSound nodes (watching qelm) = Mine qelm
  IsSound nodes stuck = Unit

  -- A function that delivers nothing and leaves a sound stage, with all nodes to get.
  pub record Quiet (nodes : List (Text × Text)) (r : QueueRun) : Type 0 where
    pub nothing : delivered r.calls ≡ []
    pub sound : IsSound nodes (left_by r)
    pub all : to_get (left_by r) nodes ≡ nodes

  pub popping-Mine : Mine (popping path)
  unfolding rb_zk_queue_pop new_queue_element
  popping-Mine = record { path_of = refl; refcnt = refl }

  freed_by_one : (qelm : QueueElement) → Mine qelm → rb_zk_queue_element_decref qelm ≡ none
  unfolding rb_zk_queue_element_decref
  freed_by_one qelm m = rw m.refcnt refl

  pub nolock-Quiet :
      (nodes : List (Text × Text)) (rc : ℤ) (qelm : QueueElement)
      → Mine qelm
      → Quiet nodes (rb_zk_queue_pop_nolock rc qelm)
  unfolding rb_zk_queue_pop_nolock queue_error IsSound
  nolock-Quiet nodes rc qelm m = elim (Bool-cases (ltb_ℤ rc (pos 0))) [
    | inl e ↦ rw (e, freed_by_one qelm m) (record { nothing = refl; sound = tt; all = refl })
    | inr e ↦ rw e (record { nothing = refl; sound = m; all = refl })
  ]

  error-Quiet :
      (nodes : List (Text × Text)) (cause : Text) (rc : ℤ) (qelm : QueueElement)
      → Mine qelm
      → Quiet nodes (queue_error cause rc qelm)
  unfolding queue_error IsSound
  error-Quiet nodes cause rc qelm m =
      rw (freed_by_one qelm m) (record { nothing = refl; sound = tt; all = refl })

  pub watcher-Quiet :
      (nodes : List (Text × Text)) (is_child_event : Bool) (rc : ℤ) (qelm : QueueElement)
      → Mine qelm
      → Quiet nodes (rb_zk_queue_child_watcher is_child_event rc qelm)
  unfolding rb_zk_queue_child_watcher IsSound
  watcher-Quiet nodes false rc qelm m = record { nothing = refl; sound = m; all = refl }
  watcher-Quiet nodes true rc qelm m = elim (Bool-cases (qelm.should_ignore_watcher)) [
    | inl e ↦ simp e (record { nothing = refl; sound = m; all = refl })
    | inr e ↦
        subst
          (λ b. Quiet nodes (
            if b
            then record { calls = []; element = some qelm }
            else rb_zk_queue_pop_nolock rc qelm))
          (sym e) (nolock-Quiet nodes rc qelm m)
  ]

  -- The minimum is got: the node at it is the first one.
  chosen-Quiet :
      (nodes : List (Text × Text)) (minimum : Text) (watcher_setted : Bool) (aget_rc : ℤ)
      (qelm : QueueElement)
      → Mine qelm
      → IsFirst nodes minimum
      → Quiet nodes (get_chosen aget_rc (choose minimum watcher_setted qelm))
  unfolding get_chosen choose queue_error IsSound rb_zk_queue_element_decref rb_zk_queue_pop
      new_queue_element AtFirst
  chosen-Quiet nodes minimum watcher_setted aget_rc qelm m at =
      elim (Bool-cases (nonzero aget_rc)) [
        | inl e ↦ simp (e, m.refcnt) (record { nothing = refl; sound = tt; all = refl })
        | inr e ↦ simp e (record {
          nothing = refl;
          sound = (
            record { path_of = m.path_of; refcnt = m.refcnt },
            refl,
            (minimum, at, ap (λ p. (parent_node (to_buf p)).1 ++ slash ∷ minimum) m.path_of),
          );
          all = refl;
        })
      ]

  pub minimum-Quiet :
      (nodes : List (Text × Text)) (children : List Text) (watcher_setted : Bool) (aget_rc : ℤ)
      (qelm : QueueElement)
      → Ascending (names nodes)
      → Mine qelm
      → IsAnswer nodes children
      → Quiet nodes
          (rb_zk_queue_pop_minimum0 (pos 0) (some_each children) watcher_setted aget_rc qelm)
  unfolding rb_zk_queue_pop_minimum0 pop_chosen IsSound
  minimum-Quiet nodes children watcher_setted aget_rc qelm asc m e =
      elim (Option-cases (min_str (some_each children))) [
        | inl n ↦ rw n (none_chosen watcher_setted)
        | inr (minimum, s) ↦ rw s (
            chosen-Quiet nodes minimum watcher_setted aget_rc qelm m (
              least-IsFirst nodes children minimum asc e (
                subst (IsMinimum (some_each children)) s (min_str-IsMinimum (some_each children)))))
      ]
    where
      none_chosen :
          (watcher_setted : Bool) → Quiet nodes (pop_chosen none watcher_setted aget_rc qelm)
      none_chosen true = record { nothing = refl; sound = m; all = refl }
      none_chosen false = record { nothing = refl; sound = m; all = refl }

  AtFirst-append :
      (nodes more : List (Text × Text)) (node : Text)
      → AtFirst nodes node
      → AtFirst (nodes ++ more) node
  unfolding AtFirst
  AtFirst-append nodes more node (name, at, e) = (name, IsFirst-append nodes more name at, e)

  -- A push behind the nodes keeps what the pop relies on.
  pub IsSound-append :
      (nodes : List (Text × Text)) (name value : Text) (stage : Popping)
      → IsSound nodes stage
      → IsSound (nodes ++ (name, value) ∷ []) stage
  unfolding IsSound
  IsSound-append nodes name value free s = tt
  IsSound-append nodes name value (listing w qelm) s = s
  IsSound-append nodes name value (listed w children qelm) (m, a) =
      (m, IsAnswer-append nodes children name value a)
  IsSound-append nodes name value (getting node qelm) (m, e, at) =
      (m, e, AtFirst-append nodes ((name, value) ∷ []) node at)
  IsSound-append nodes name value (deleting node qelm) (m, at) =
      (m, AtFirst-append nodes ((name, value) ∷ []) node at)
  IsSound-append nodes name value (watching qelm) s = s
  IsSound-append nodes name value stuck s = tt

  pub to_get-append :
      (nodes : List (Text × Text)) (node : Text × Text) (stage : Popping)
      → IsSound nodes stage
      → to_get stage (nodes ++ node ∷ []) ≡ to_get stage nodes ++ node ∷ []
  unfolding IsSound AtFirst
  to_get-append nodes node free s = refl
  to_get-append nodes node (listing w qelm) s = refl
  to_get-append nodes node (listed w children qelm) s = refl
  to_get-append nodes node (getting at qelm) s = refl
  to_get-append nodes node (deleting at qelm) (m, (name, (value, rest, e), q)) =
      ap (λ l. drop 1 (l ++ node ∷ [])) e ∙ sym (ap (λ l. drop 1 l ++ node ∷ []) e)
  to_get-append nodes node (watching qelm) s = refl
  to_get-append nodes node stuck s = refl

  pub not_answered-Quiet :
      (nodes : List (Text × Text)) (rc aget_rc : ℤ) (watcher_setted : Bool) (qelm : QueueElement)
      → Mine qelm
      → ltb_ℤ rc (pos 0) ≡ true
      → Quiet nodes (rb_zk_queue_pop_minimum0 rc [] watcher_setted aget_rc qelm)
  unfolding rb_zk_queue_pop_minimum0
  not_answered-Quiet nodes rc aget_rc watcher_setted qelm m e =
      rw e (error-Quiet nodes (codes "Error getting queue minimum") rc qelm m)

  pub not_read-Quiet :
      (nodes : List (Text × Text)) (rc adelete_rc : ℤ) (value : Text) (qelm : QueueElement)
      → Mine qelm
      → ltb_ℤ rc (pos 0) ≡ true
      → Quiet nodes (rb_zk_queue_get_element rc value adelete_rc qelm)
  unfolding rb_zk_queue_get_element
  not_read-Quiet nodes rc adelete_rc value qelm m e =
      subst
        (λ b. Quiet nodes (
          if b then queue_error (codes "Error getting queue element") rc qelm else record {
            calls =
                data_cb rc value
                ∷ adelete (path_or_empty qelm.queue_element_path)
                ∷ (if ltb_ℤ adelete_rc (pos 0)
                    then error_cb (codes "Error calling adelete") rc ∷ []
                    else []);
            element = some qelm;
          }))
        (sym e) (error-Quiet nodes (codes "Error getting queue element") rc qelm m)

  pub deleted_lem :
      (nodes : List (Text × Text)) (qelm : QueueElement)
      → Mine qelm
      → Quiet nodes (rb_zk_queue_delete_completed (pos 0) qelm)
  unfolding rb_zk_queue_delete_completed IsSound
  deleted_lem nodes qelm m = elim (Bool-cases qelm.has_mutex) [
    | inl e ↦ simp (e, m.refcnt) (record { nothing = refl; sound = tt; all = refl })
    | inr e ↦ simp (e, m.refcnt) (record { nothing = refl; sound = tt; all = refl })
  ]

-- ===== src/Monitors/Update/Changes.antt =====
-- What process_monitor_value sends and keeps, against a description of it.
use mathlib.Core.Option
use rb_monitor.Prelude.{
  ◌+◌, Bool, ◌||◌, ◌++◌, drop, leb, ltb, ℕ, zero, suc, ◌≡◌, refl, ap, ◌∙◌, true, false, not, Option,
  none, some, List, [], ◌∷◌, arith, inl, inr, Outcome, ret, Bool-cases, if◌then◌else◌, get_elem?,
}
use rb_monitor.Prelude.Int.{ℤ, pos, ltb_ℤ, sub_ℕ, pos_part, neg_part, ◌-ℤ◌}
use rb_monitor.Platform.{Platform}
use rb_monitor.Value.{RawValue, MonitorValue, value, array, rb_monitor_value_cmp_timestamp}
use rb_monitor.Value.Print.{Message, MessageArray, print_monitor_value0}
use rb_monitor.Value.Print.Messages.{
  used, messages, child_messages, split_messages, print_monitor_value-messages,
}
use rb_monitor.Monitor.{Monitor}
use rb_monitor.Monitors.Update.{
  Updated, differs, updated_child, updated_children, print_if_sent, process_monitor_value_v,
  replace, compare_and_update, process_monitor_value,
}

-- The messages that are pushed.
abbrev pub pushed : Option MessageArray → List Message
pushed none = []
pushed (some a) = used a

-- The old element at a place: none where it is null and behind the end.
abbrev pub old_at : {A : Type 0} → List (Option A) → ℕ → Option A
old_at [] i = none
old_at (o ∷ os) zero = o
old_at (o ∷ os) (suc i) = old_at os i

-- A difference below 0 is that of a lower number.
sub_below : (m n : ℕ) → ltb_ℤ (sub_ℕ m n) (pos 0) ≡ ltb m n
sub_below m n = elim (Bool-cases (leb n m)) [
  | inl e ↦ rw e (ground arith)
  | inr e ↦ rw e (ground arith)
]

below_zero : (a b : ℤ) → ltb_ℤ (a -ℤ b) (pos 0) ≡ ltb_ℤ a b
unfolding ◌-ℤ◌
below_zero a b =
    let same : neg_part a + pos_part b ≡ pos_part b + neg_part a = omega arith in
    sub_below (pos_part a + neg_part b) (neg_part a + pos_part b)
    ∙ ap (ltb (pos_part a + neg_part b)) same

module _ (p : Platform) where
  behind_end : (new : Option (RawValue p.Double)) → new ≡ updated_child p new none
  unfolding updated_child
  behind_end none = refl
  behind_end (some new) = refl

  -- At each place of the new array a child is printed if it is there and the old array has none at
  -- that place, or one that is earlier or has another number.
  pub updated_children_at :
      (news olds : List (Option (RawValue p.Double))) (i : ℕ)
      → get_elem? (updated_children p news olds) i
        ≡ Option.map (λ new. updated_child p new (old_at olds i)) (get_elem? news i)
  unfolding updated_children
  updated_children_at [] olds i = refl
  updated_children_at (new ∷ news) [] zero = ap some (behind_end new)
  updated_children_at (new ∷ news) [] (suc i) = updated_children_at news [] i
  updated_children_at (new ∷ news) (old ∷ olds) zero = refl
  updated_children_at (new ∷ news) (old ∷ olds) (suc i) = updated_children_at news olds i

  -- The new value is later than the old one, or rd_dne tells their numbers apart.
  abbrev pub is_changed : RawValue p.Double → RawValue p.Double → Bool
  is_changed old new = ltb_ℤ old.timestamp new.timestamp || p.rd_dne old.value new.value

  differs-is_changed : (old new : RawValue p.Double) → differs p old new ≡ is_changed old new
  unfolding differs rb_monitor_value_cmp_timestamp
  differs-is_changed old new =
      ap (λ b. b || p.rd_dne old.value new.value) (below_zero old.timestamp new.timestamp)

  is_changed_self :
      (v : RawValue p.Double) → p.rd_dne v.value v.value ≡ false → is_changed v v ≡ false
  is_changed_self v h = ground (arith, h)

  module _ (monitor : Monitor p.Json) where
    -- The message of one new child, at its position and against the old child at that place.
    abbrev pub change_message :
        ℕ → Option (RawValue p.Double) → Option (RawValue p.Double) → List Message
    change_message i none old = []
    change_message i (some new) none = print_monitor_value0 p monitor new (some i) ∷ []
    change_message i (some new) (some old) =
        if is_changed old new then print_monitor_value0 p monitor new (some i) ∷ [] else []

    -- The messages of the children that are new or changed, in order.
    abbrev pub change_messages :
        ℕ → List (Option (RawValue p.Double)) → List (Option (RawValue p.Double)) → List Message
    change_messages i [] olds = []
    change_messages i (new ∷ news) olds =
        change_message i new (old_at olds 0) ++ change_messages (suc i) news (drop 1 olds)

    updated_child-message :
        (i : ℕ) (new old : Option (RawValue p.Double)) (rest : List (Option (RawValue p.Double)))
        → child_messages p monitor i (updated_child p new old ∷ rest)
          ≡ change_message i new old ++ child_messages p monitor (suc i) rest
    unfolding updated_child
    updated_child-message i none old rest = refl
    updated_child-message i (some new) none rest = refl
    updated_child-message i (some new) (some old) rest =
        rw (differs-is_changed old new)
          (elim (Bool-cases (is_changed old new)) [ inl e ↦ rw e refl | inr e ↦ rw e refl ])

    updated_children-messages :
        (i : ℕ) (news olds : List (Option (RawValue p.Double)))
        → child_messages p monitor i (updated_children p news olds) ≡ change_messages i news olds
    unfolding updated_children
    updated_children-messages i [] olds = refl
    updated_children-messages i (new ∷ news) [] =
        ap (λ o. child_messages p monitor i (o ∷ updated_children p news [])) (behind_end new)
        ∙ updated_child-message i new none (updated_children p news [])
        ∙ ap (λ l. change_message i new none ++ l) (updated_children-messages (suc i) news [])
    updated_children-messages i (new ∷ news) (old ∷ olds) =
        updated_child-message i new old (updated_children p news olds)
        ∙ ap (λ l. change_message i new old ++ l) (updated_children-messages (suc i) news olds)

    abbrev pub sent_of : MonitorValue p.Double → List Message
    sent_of mv = if monitor.send then messages p monitor mv else []

    print_if_sent-messages :
        (mv : MonitorValue p.Double)
        → (m : Option MessageArray) × (print_if_sent p monitor mv ≡ ret m) × (pushed m ≡ sent_of mv)
    unfolding print_if_sent
    print_if_sent-messages mv =
        let (a, q, u, short) = print_monitor_value-messages p monitor mv in
        elim (Bool-cases monitor.send) [
          | inl e ↦ (some a, simp (e, q), simp e u)
          | inr e ↦ (none, simp e, simp e)
        ]

    -- What a new value against an old one leaves and sends. Without timestamps, or with no old
    -- value, the new value. With timestamps a plain value only if it differs; an array its changes
    -- and its aggregate, and then the new children stay with the old aggregate.
    abbrev pub saved_of :
        MonitorValue p.Double → Option (MonitorValue p.Double) → MonitorValue p.Double
    saved_of new none = new
    saved_of (value new) (some (value old)) =
        if not monitor.timestamp_given
        then value new
        else if is_changed old new
        then value new
        else value old
    saved_of (array news split) (some (array olds old_split)) =
        if not monitor.timestamp_given then array news split else array news old_split
    saved_of (value new) (some (array olds old_split)) = value new
    saved_of (array news split) (some (value old)) = array news split

    abbrev pub messages_of : MonitorValue p.Double → Option (MonitorValue p.Double) → List Message
    messages_of new none = sent_of new
    messages_of (value new) (some (value old)) =
        if not monitor.timestamp_given
        then sent_of (value new)
        else if is_changed old new
        then sent_of (value new)
        else []
    messages_of (array news split) (some (array olds old_split)) =
        if not monitor.timestamp_given
        then sent_of (array news split)
        else if monitor.send
        then change_messages 0 news olds ++ split_messages p monitor split
        else []
    messages_of (value new) (some (array olds old_split)) = sent_of (value new)
    messages_of (array news split) (some (value old)) = sent_of (array news split)

    -- The old value is null or of the type of the new one.
    abbrev pub SameType : MonitorValue p.Double → Option (MonitorValue p.Double) → Type 0
    SameType new none = Unit {0}
    SameType (value new) (some (value old)) = Unit {0}
    SameType (array news split) (some (array olds old_split)) = Unit {0}
    SameType (value new) (some (array olds old_split)) = ⊥
    SameType (array news split) (some (value old)) = ⊥

    abbrev pub Updates : Outcome (Updated p.Double) → MonitorValue p.Double → List Message → Type 0
    Updates run saved sent =
        (r : Updated p.Double) × (run ≡ ret r) × (r.saved ≡ saved) × (pushed r.msgs ≡ sent)

    pub replace-Updates :
        (mv : MonitorValue p.Double) → Updates (replace p monitor mv) mv (sent_of mv)
    unfolding replace
    replace-Updates mv =
        let (m, q, u) = print_if_sent-messages mv in
        (record { saved = mv; msgs = m }, rw q, refl, u)

    -- Let the last known value be null or of the type of the new one. Then process_monitor_value
    -- runs with no fault. With no last known value, or without timestamps in the response, it keeps
    -- the new value and pushes its messages. Otherwise it does so for a plain value only if that is
    -- later or has another number; of an array it pushes the children that changed and the
    -- aggregate, and keeps the new children with the old aggregate. It pushes nothing for a monitor
    -- that is not sent. A child has changed if the old array has none at its place, or one that is
    -- earlier or has another number by rd_dne.
    pub process_monitor_value-Updates :
        (new : MonitorValue p.Double) (old : Option (MonitorValue p.Double))
        → SameType new old
        → (r : Updated p.Double) × (process_monitor_value p monitor new old ≡ ret r)
          × (r.saved ≡ saved_of new old)
          × (pushed r.msgs ≡ messages_of new old)
    unfolding process_monitor_value compare_and_update process_monitor_value_v
    process_monitor_value-Updates new none h = replace-Updates new
    process_monitor_value-Updates (value new) (some (value old)) h =
        elim (Bool-cases monitor.timestamp_given) [
          | inl e ↦ elim (Bool-cases (is_changed old new)) [
            | inl d ↦ simp (e, differs-is_changed old new ∙ d, d) (replace-Updates (value new))
            | inr d ↦
                simp (e, differs-is_changed old new ∙ d, d)
                  (record { saved = value old; msgs = none }, refl, refl, refl)
          ]
          | inr e ↦ simp e (replace-Updates (value new))
        ]
    process_monitor_value-Updates (array news split) (some (array olds old_split)) h =
        elim (Bool-cases monitor.timestamp_given) [
          | inl e ↦
              let (m, q, u) = print_if_sent-messages (array (updated_children p news olds) split) in
              simp e (
                record { saved = array news old_split; msgs = m },
                rw q,
                refl,
                u
                    ∙ ap (λ l. if monitor.send then l ++ split_messages p monitor split else [])
                        (updated_children-messages 0 news olds),
              )
          | inr e ↦ simp e (replace-Updates (array news split))
        ]
    process_monitor_value-Updates (value new) (some (array olds old_split)) h = elim h [ ]
    process_monitor_value-Updates (array news split) (some (value old)) h = elim h [ ]

    -- rd_dne does not tell a number of the children from itself.
    abbrev pub NoneDiffers : List (Option (RawValue p.Double)) → Type 0
    NoneDiffers [] = Unit
    NoneDiffers (none ∷ cs) = NoneDiffers cs
    NoneDiffers (some c ∷ cs) = (p.rd_dne c.value c.value ≡ false) × NoneDiffers cs

    nothing_changed :
        (cs : List (Option (RawValue p.Double))) (i : ℕ)
        → NoneDiffers cs
        → change_messages i cs cs ≡ []
    nothing_changed [] i h = refl
    nothing_changed (none ∷ cs) i h = nothing_changed cs (suc i) h
    nothing_changed (some c ∷ cs) i (same, h) =
        rw (is_changed_self c same) (nothing_changed cs (suc i) h)

    -- The number of a value, or those of the children of an array.
    abbrev pub IsStable : MonitorValue p.Double → Type 0
    IsStable (value v) = p.rd_dne v.value v.value ≡ false
    IsStable (array cs split) = NoneDiffers cs

  -- The aggregate of an array, as a message.
  abbrev pub aggregate_messages : Monitor p.Json → MonitorValue p.Double → List Message
  aggregate_messages monitor (value v) = []
  aggregate_messages monitor (array cs split) =
      if monitor.send then split_messages p monitor split else []

  -- Let timestamps come with the response, and let rd_dne tell none of the value's own numbers from
  -- itself, as it does not for a finite one. Then a value that comes a second time stays as it is, and of it at most the aggregate is sent again.
  pub process_monitor_value_again :
      (monitor : Monitor p.Json) (mv : MonitorValue p.Double)
      → IsStable monitor mv
      → monitor.timestamp_given ≡ true
      → (r : Updated p.Double) × (process_monitor_value p monitor mv (some mv) ≡ ret r)
        × (r.saved ≡ mv)
        × (pushed r.msgs ≡ aggregate_messages monitor mv)
  process_monitor_value_again monitor (value v) h given =
      let (r, q, saved, sent) =
        process_monitor_value-Updates monitor (value v) (some (value v)) tt in
      (r, q, saved ∙ simp (given, is_changed_self v h), sent ∙ simp (given, is_changed_self v h))
  process_monitor_value_again monitor (array cs split) h given =
      let (r, q, saved, sent) =
        process_monitor_value-Updates monitor (array cs split) (some (array cs split)) tt in
      (r, q, saved ∙ simp given, sent ∙ simp (given, nothing_changed monitor cs 0 h))

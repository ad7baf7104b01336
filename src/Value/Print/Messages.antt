-- ===== src/Value/Print/Messages.antt =====
-- src/rb_value.c: the messages of print_monitor_value, against a description of them.
use mathlib.Core.List.{append_assoc, append-nil}
use rb_monitor.Prelude.{
  length-replicate, length-append, ℕ, zero, suc, ◌+◌, ◌*◌, ◌≡◌, refl, ap, sym, ◌∙◌, Option, none,
  some, List, [], ◌∷◌, ◌++◌, arith, ret, length, length-snoc, take, replicate, write, write-append,
}
use rb_monitor.Platform.{Platform}
use rb_monitor.Value.{RawValue, MonitorValue, value, array}
use rb_monitor.Value.Print.{
  sizeof_pointer, sizeof_message_array, sizeof_message, Message, MessageArray, empty_message,
  new_messages_array, print_monitor_value0, print_children, print_split, print_monitor_value,
}
use rb_monitor.Monitor.{Monitor}

-- The messages that an array holds.
abbrev pub used : MessageArray → List Message
used a = take a.count a.msgs

abbrev nulls {ℓ} : {A : Type ℓ} → List (Option A) → ℕ
nulls [] = 0
nulls (none ∷ os) = suc (nulls os)
nulls (some a ∷ os) = nulls os

take-append {ℓ} : {A : Type ℓ} (xs ys : List A) → take (length xs) (xs ++ ys) ≡ xs
take-append [] ys = refl
take-append (x ∷ xs) ys = ap (λ l. x ∷ l) (take-append xs ys)

module _ (p : Platform) (monitor : Monitor p.Json) where
  -- A message for each child that is there, with its position.
  abbrev pub child_messages : ℕ → List (Option (RawValue p.Double)) → List Message
  child_messages i [] = []
  child_messages i (none ∷ rest) = child_messages (suc i) rest
  child_messages i (some child ∷ rest) =
      print_monitor_value0 p monitor child (some i) ∷ child_messages (suc i) rest

  abbrev pub split_messages : Option (RawValue p.Double) → List Message
  split_messages none = []
  split_messages (some split) = print_monitor_value0 p monitor split none ∷ []

  -- A value has one message. An array has one for each child that is there, in order, with the
  -- position of the child as its instance, and at the end one for the aggregate.
  abbrev pub messages : MonitorValue p.Double → List Message
  messages (value v) = print_monitor_value0 p monitor v none ∷ []
  messages (array children split) = child_messages 0 children ++ split_messages split

  length-child_messages :
      (i : ℕ) (cs : List (Option (RawValue p.Double)))
      → length cs ≡ length (child_messages i cs) + nulls cs
  length-child_messages i [] = omega arith
  length-child_messages i (none ∷ cs) = omega (arith, length-child_messages (suc i) cs)
  length-child_messages i (some c ∷ cs) = omega (arith, length-child_messages (suc i) cs)

  print_children-messages :
      (cs : List (Option (RawValue p.Double))) (i k extra : ℕ) (done : List Message)
      → k ≡ length (child_messages i cs) + extra
      → let printed = done ++ child_messages i cs in
        print_children p monitor cs i (length done) (done ++ replicate k empty_message)
        ≡ ret (length printed, done ++ (child_messages i cs ++ replicate extra empty_message))
  unfolding print_children
  print_children-messages [] i k extra done h =
      let e : k ≡ extra = omega arith in rw (e, append-nil)
  print_children-messages (none ∷ cs) i k extra done h =
      print_children-messages cs (suc i) k extra done h
  print_children-messages (some c ∷ cs) i zero extra done h = absurd (omega arith)
  print_children-messages (some c ∷ cs) i (suc k) extra done h =
      let m = print_monitor_value0 p monitor c (some i) in
      let ih = print_children-messages cs (suc i) k extra (done ++ m ∷ []) (omega arith) in
      rw (write-append done empty_message m (replicate k empty_message))
        (simp (length-snoc, append_assoc) at ih)

  -- print_monitor_value writes each message to an element that it asked for, and the messages that
  -- the array then counts are those of the value: one for a plain value; for an array one for each
  -- child that is there, in order and with its position, and at the end one for the aggregate, if
  -- there is one. The memory of the array is 16 bytes short of those elements behind its header, so
  -- that the last element is not all inside.
  pub print_monitor_value-messages :
      (mv : MonitorValue p.Double)
      → (a : MessageArray) × (print_monitor_value p monitor mv ≡ ret a)
        × (used a ≡ messages mv)
        × (a.allocated + 16 ≡ sizeof_message_array + length a.msgs * sizeof_message)
  unfolding print_monitor_value new_messages_array print_split write
  print_monitor_value-messages (value v) = (
    record {
      count = 1;
      msgs = print_monitor_value0 p monitor v none ∷ [];
      allocated = sizeof_pointer + 1 * sizeof_message;
    },
    refl,
    refl,
    refl,
  )
  print_monitor_value-messages (array cs none) =
      let printed = child_messages 0 cs in
      let loop =
        print_children-messages cs 0 (length cs) (nulls cs) [] (length-child_messages 0 cs) in
      (
        record {
          count = length printed;
          msgs = printed ++ replicate (nulls cs) empty_message;
          allocated = sizeof_pointer + length cs * sizeof_message;
        },
        rw loop,
        take-append printed _ ∙ sym (append-nil printed),
        omega (
          arith,
          length-append printed (replicate (nulls cs) empty_message),
          length-replicate (nulls cs) empty_message,
          length-child_messages 0 cs,
        ),
      )
  print_monitor_value-messages (array cs (some split)) =
      let printed = child_messages 0 cs in
      let m = print_monitor_value0 p monitor split none in
      let loop =
        print_children-messages cs 0 (length cs + 1) (suc (nulls cs)) []
          (omega (arith, length-child_messages 0 cs)) in
      (
        record {
          count = suc (length printed);
          msgs = printed ++ m ∷ replicate (nulls cs) empty_message;
          allocated = sizeof_pointer + (length cs + 1) * sizeof_message;
        },
        rw (loop, write-append printed empty_message m (replicate (nulls cs) empty_message)),
        simp (length-snoc, append_assoc) at
            (take-append (printed ++ m ∷ []) (replicate (nulls cs) empty_message)),
        omega (
          arith,
          length-append printed (m ∷ replicate (nulls cs) empty_message),
          length-replicate (nulls cs) empty_message,
          length-child_messages 0 cs,
        ),
      )

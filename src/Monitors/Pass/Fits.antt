-- ===== src/Monitors/Pass/Fits.antt =====
-- Which monitors are well-formed, and which values fit a monitor.
use mathlib.Core.Option.{some-injective}
use rb_monitor.Prelude.{
  ℕ, zero, suc, ◌≡◌, ◌≢◌, refl, ap, sym, subst, true, false, Option, none, some, List, [], ◌∷◌, inl,
  inr, arith, ret, Bool-cases, length, get_elem?, set,
}
use rb_monitor.Prelude.Text.{Text}
use rb_monitor.Platform.{Platform}
use rb_monitor.Value.{MonitorValue, value, array}
use rb_monitor.System.{Answer}
use rb_monitor.Prelude.Int.{ℤ}
use rb_monitor.Monitor.{Monitor, MonitorCmdType}
use rb_monitor.Monitor.Vector.Elements.{vector_of, process_vector_monitor-elements}
use rb_monitor.Monitor.External.{forced, vector_or_value, rb_monitor_get_external_value}
use rb_monitor.Monitor.Operation.Safe.{PrintsShort}
use rb_monitor.Monitors.Update.{Updated, process_monitor_value}
use rb_monitor.Monitors.Update.Changes.{
  saved_of, SameType, replace-Updates, process_monitor_value-Updates,
}

-- The type of value that a split token, or none, asks for.
abbrev pub OfType : {Double : Type 0} → Option Text → MonitorValue Double → Type 0
OfType none (value v) = Unit {0}
OfType none (array cs sp) = ⊥
OfType (some t) (value v) = ⊥
OfType (some t) (array cs sp) = Unit {0}

module _ (p : Platform) where
  -- A value that is compared, because timestamps come with the response, is of the type that the
  -- split token asks for.
  abbrev pub Fits : Monitor p.Json → MonitorValue p.Double → Type 0
  Fits m mv = m.timestamp_given ≡ true → OfType m.splittok mv

  abbrev pub FitsIfKnown : Monitor p.Json → Option (MonitorValue p.Double) → Type 0
  FitsIfKnown m none = Unit {0}
  FitsIfKnown m (some mv) = Fits m mv

  -- The split token is not empty; an operation has no timestamps, and its results print short.
  pub record IsWellFormed (m : Monitor p.Json) : Type 0 where
    pub token : m.splittok ≢ some []
    pub op_timestamp : m.type ≡ MonitorCmdType.op → m.timestamp_given ≡ false
    pub short : m.type ≡ MonitorCmdType.op → PrintsShort p m.cmd_arg

  -- Each known value fits its monitor.
  abbrev pub AllFit : List (Monitor p.Json) → List (Option (MonitorValue p.Double)) → Type 0
  AllFit [] [] = Unit {0}
  AllFit [] (o ∷ os) = ⊥
  AllFit (m ∷ ms) [] = ⊥
  AllFit (m ∷ ms) (o ∷ os) = FitsIfKnown m o × AllFit ms os

  pub length-AllFit :
      (ms : List (Monitor p.Json)) (os : List (Option (MonitorValue p.Double)))
      → AllFit ms os
      → length os ≡ length ms
  length-AllFit [] [] h = refl
  length-AllFit [] (o ∷ os) h = elim h [ ]
  length-AllFit (m ∷ ms) [] h = elim h [ ]
  length-AllFit (m ∷ ms) (o ∷ os) h = ap suc (length-AllFit ms os h.1)

  pub AllFit-get :
      (ms : List (Monitor p.Json)) (os : List (Option (MonitorValue p.Double))) (i : ℕ)
      (m : Monitor p.Json) (o : Option (MonitorValue p.Double))
      → AllFit ms os
      → get_elem? ms i ≡ some m
      → get_elem? os i ≡ some o
      → FitsIfKnown m o
  AllFit-get [] os i m o h e q = cc
  AllFit-get (m' ∷ ms) [] i m o h e q = cc
  AllFit-get (m' ∷ ms) (o' ∷ os) zero m o h e q =
      subst (λ x. FitsIfKnown x o) (some-injective m' m e)
        (subst (FitsIfKnown m') (some-injective o' o q) h.0)
  AllFit-get (m' ∷ ms) (o' ∷ os) (suc i) m o h e q = AllFit-get ms os i m o h.1 e q

  pub AllFit-set :
      (ms : List (Monitor p.Json)) (os : List (Option (MonitorValue p.Double))) (i : ℕ)
      (m : Monitor p.Json) (o : Option (MonitorValue p.Double))
      → AllFit ms os
      → get_elem? ms i ≡ some m
      → FitsIfKnown m o
      → AllFit ms (set os i o)
  AllFit-set [] [] i m o h e q = tt
  AllFit-set [] (o' ∷ os) i m o h e q = elim h [ ]
  AllFit-set (m' ∷ ms) [] i m o h e q = elim h [ ]
  AllFit-set (m' ∷ ms) (o' ∷ os) zero m o h e q =
      (subst (λ x. FitsIfKnown x o) (sym (some-injective m' m e)) q, h.1)
  AllFit-set (m' ∷ ms) (o' ∷ os) (suc i) m o h e q = (h.0, AllFit-set ms os i m o h.1 e q)

  module _ (m : Monitor p.Json) where
    vector_or_value-OfType :
        (tok : Option Text) (answer : Answer p.Double) (now : ℤ)
        → tok ≢ some []
        → (mv : MonitorValue p.Double) × (vector_or_value p m tok answer now ≡ ret mv)
          × OfType tok mv
    unfolding vector_or_value
    vector_or_value-OfType none answer now h = (_, refl, tt)
    vector_or_value-OfType (some t) answer now h = (
      vector_of p m t now answer.buffer,
      process_vector_monitor-elements p m t now (suc (length answer.buffer)) answer.buffer
          (λ e. h (ap some e)) (omega arith),
      tt,
    )

    -- A response gives a value of the type that the split token asks for.
    pub external_OfType :
        (answer : Answer p.Double) (now : ℤ)
        → IsWellFormed m
        → (mv : MonitorValue p.Double) × (rb_monitor_get_external_value p m answer now ≡ ret mv)
          × OfType m.splittok mv
    unfolding rb_monitor_get_external_value
    external_OfType answer now wf =
        vector_or_value-OfType m.splittok (forced p m answer) now wf.token

    fitting_SameType :
        (t : Option Text) (new : MonitorValue p.Double) (old : Option (MonitorValue p.Double))
        → OfType t new
        → ((mv : MonitorValue p.Double) → old ≡ some mv → OfType t mv)
        → SameType p m new old
    fitting_SameType t new none h k = tt
    fitting_SameType none (value v) (some (value w)) h k = tt
    fitting_SameType none (value v) (some (array ds sq)) h k = k (array ds sq) refl
    fitting_SameType none (array cs sp) (some mv) h k = elim h [ ]
    fitting_SameType (some t) (value v) (some mv) h k = elim h [ ]
    fitting_SameType (some t) (array cs sp) (some (value w)) h k = k (value w) refl
    fitting_SameType (some t) (array cs sp) (some (array ds sq)) h k = tt

    saved_OfType :
        (t : Option Text) (new : MonitorValue p.Double) (old : Option (MonitorValue p.Double))
        → OfType t new
        → OfType t (saved_of p m new old)
    saved_OfType t new none h = h
    saved_OfType none (value v) (some (value w)) h = ground arith
    saved_OfType none (value v) (some (array ds sq)) h = tt
    saved_OfType none (array cs sp) (some mv) h = elim h [ ]
    saved_OfType (some t) (value v) (some mv) h = elim h [ ]
    saved_OfType (some t) (array cs sp) (some (value w)) h = tt
    saved_OfType (some t) (array cs sp) (some (array ds sq)) h = ground arith

    -- What is kept of a value that fits, against one that fits, fits.
    pub process_monitor_value-Fits :
        (new : MonitorValue p.Double) (old : Option (MonitorValue p.Double))
        → Fits m new
        → FitsIfKnown m old
        → (r : Updated p.Double) × (process_monitor_value p m new old ≡ ret r) × Fits m r.saved
    unfolding process_monitor_value
    process_monitor_value-Fits new none h k =
        let (r, q, saved, sent) = replace-Updates p m new in (r, q, rw saved h)
    process_monitor_value-Fits new (some old) h k = elim (Bool-cases m.timestamp_given) [
      | inl given ↦
          let (r, q, saved, sent) = process_monitor_value-Updates p m new (some old) (
            fitting_SameType m.splittok new (some old) (h given)
              (λ mv e. subst (OfType m.splittok) (some-injective old mv e) (k given))) in
          (r, q, λ _. rw saved (saved_OfType m.splittok new (some old) (h given)))
      | inr no_time ↦
          let (r, q, saved, sent) = replace-Updates p m new in (r, simp no_time q, λ given. cc)
    ]

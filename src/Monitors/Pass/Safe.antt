-- ===== src/Monitors/Pass/Safe.antt =====
-- src/rb_sensor_monitor_array.c: the memory that process_monitors_array reads and writes, and the
-- types of the values.
use rb_monitor.Monitors.Pass.OneMonitor.{OnePerVariable, sensor_returns}
use mathlib.Core.Option.{some-injective}
use mathlib.Core.List.{append_assoc}
use rb_monitor.Prelude.{
  set-set, set_same, write, ℕ, ◌<◌, ◌≡◌, refl, ap, sym, subst, ◌∙◌, Bool, false, ◌&&◌, Option, none,
  some, List, [], ◌∷◌, ◌++◌, inl, inr, arith, map, ret, Bool-cases, Option-cases, is_some, ltb,
  length, get_elem?, set, take, take-length, length-map, get_elem?_in_range, in_range_of_get_elem?,
  get_elem?-append, write_in_range, length-snoc,
}
use rb_monitor.Platform.{Platform}
use rb_monitor.Array.{RbArray, contents}
use rb_monitor.Value.{MonitorValue}
use rb_monitor.Value.Select.{rb_monitor_value_array_select}
use rb_monitor.Monitor.{Monitor}
use rb_monitor.Monitor.External.{Outside}
use rb_monitor.Monitors.Dependencies.{
  rb_monitor_get_op_variables, get_monitor_dependencies, get_monitors_dependencies,
}
use rb_monitor.Monitors.Dependencies.Selected.{select-dependencies}
use rb_monitor.Monitors.Update.Changes.{pushed}
use rb_monitor.Monitors.Pass.{
  SnmpParams, Pass, keep_value, copy_value, pass_round, pass_loop, start_pass,
  process_monitors_array,
}
use rb_monitor.Monitors.Pass.Fits.{
  FitsIfKnown, IsWellFormed, AllFit, length-AllFit, AllFit-get, AllFit-set,
  process_monitor_value-Fits,
}

-- Every monitor is well-formed.
abbrev pub AllWellFormed : (p : Platform) → List (Monitor p.Json) → Type 0
AllWellFormed p [] = Unit {0}
AllWellFormed p (m ∷ ms) = IsWellFormed p m × AllWellFormed p ms

module _ (p : Platform) (monitors : List (Monitor p.Json)) where
  -- What holds between two rounds.
  pub record IsReady (st : Pass p) : Type 0 where
    pub copied : st.current.elms ≡ st.last_known
    pub fits : AllFit p monitors st.last_known

  selected_OnePerVariable :
      (st : Pass p) (m : Monitor p.Json) (wf : IsWellFormed p m)
      → IsReady st
      → (selected : Option (RbArray (MonitorValue p.Double))) × (rb_monitor_value_array_select
            st.current
            (get_monitor_dependencies p monitors m)
          ≡ ret selected)
        × OnePerVariable p m wf selected
  unfolding rb_monitor_value_array_select
  selected_OnePerVariable st m wf ready =
      elim (Option-cases (get_monitor_dependencies p monitors m)) [
        | inl e ↦ (none, rw e refl, λ values q. cc q)
        | inr (ps, e) ↦
            let (values, q, c) =
              select-dependencies p monitors st.current m ps
                (omega (
                  arith,
                  ap length ready.copied,
                  length-AllFit p monitors st.last_known ready.fits,
                ))
                e in
            (
              some values,
              rw e q,
              λ values' q'.
                  subst
                    (λ (x : RbArray (MonitorValue p.Double)).
                      length (contents x) ≡ length (rb_monitor_get_op_variables p m))
                    (some-injective values values' q')
                    (ap length c ∙ length-map (rb_monitor_get_op_variables p m) _),
            )
      ]

  -- A round leaves the rest of the last known values, and what it writes fits.
  abbrev Kept : ℕ → Pass p → Pass p → Type 0
  Kept i st st' =
      AllFit p monitors st'.last_known
      × (st'.current ≡ st.current)
      × ((v : Option (MonitorValue p.Double)) → set st.last_known i v ≡ set st'.last_known i v)

  keep_value_returns :
      (st : Pass p) (m : Monitor p.Json) (i : ℕ) (new : Option (MonitorValue p.Double))
      → IsReady st
      → get_elem? monitors i ≡ some m
      → FitsIfKnown p m new
      → (st' : Pass p) × (keep_value p m i new st ≡ ret st') × Kept i st st'
  unfolding keep_value
  keep_value_returns st m i none ready at fit = (st, refl, (ready.fits, refl, λ v. refl))
  keep_value_returns st m i (some new) ready at fit =
      let (old, q) = get_elem?_in_range st.last_known i (
        omega (
          arith,
          in_range_of_get_elem? monitors i at,
          length-AllFit p monitors st.last_known ready.fits,
        )) in
      let (r, e, fits) =
        process_monitor_value-Fits p m new old fit
          (AllFit-get p monitors st.last_known i m old ready.fits at q) in
      (
        record st {
          last_known = set st.last_known i (some r.saved);
          sent = st.sent ++ pushed r.msgs;
        },
        rw (keep_value, q) (rw e refl),
        (
          AllFit-set p monitors st.last_known i m (some r.saved) ready.fits at fits,
          refl,
          λ v. sym (set-set st.last_known i (some r.saved) v),
        ),
      )

  copy_value_returns :
      (st st' : Pass p) (i : ℕ)
      → i < length monitors
      → IsReady st
      → Kept i st st'
      → (st'' : Pass p) × (copy_value p i st' ≡ ret st'') × IsReady st''
  unfolding copy_value
  copy_value_returns st st' i inside ready (fits, current, same) =
      let (v, q) =
        get_elem?_in_range st'.last_known i
          (omega (arith, inside, length-AllFit p monitors st'.last_known fits)) in
      let elms : st'.current.elms ≡ st.last_known =
        ap (λ (x : RbArray (MonitorValue p.Double)). x.elms) current ∙ ready.copied in
      let w : write st'.current.elms i v ≡ ret st'.last_known =
        write_in_range st'.current.elms i v
          (omega (arith, inside, ap length elms, length-AllFit p monitors st.last_known ready.fits))
        ∙ ap ret (ap (λ l. set l i v) elms ∙ same v ∙ set_same st'.last_known i v q) in
      (
        record st' { current = record st'.current { elms = st'.last_known } },
        rw (copy_value, q) (rw w refl),
        record { copied = refl; fits = fits },
      )

  round_returns :
      (st : Pass p) (m : Monitor p.Json) (i : ℕ) (outside : Outside)
      → IsWellFormed p m
      → get_elem? monitors i ≡ some m
      → IsReady st
      → (st' : Pass p) × (pass_round p m (get_monitor_dependencies p monitors m) outside i st
          ≡ ret st')
        × IsReady st'
  unfolding pass_round
  round_returns st m i outside wf at ready =
      let (selected, q0, one) = selected_OnePerVariable st m wf ready in
      let (new, q1, fit) = sensor_returns p m wf selected outside one in
      let (st1, q2, kept) = keep_value_returns st m i new ready at fit in
      let (st2, q3, ready') =
        copy_value_returns st st1 i (in_range_of_get_elem? monitors i at) ready kept in
      (st2, rw q0 (rw q1 (rw q2 q3)), ready')

  loop_returns :
      (done ms : List (Monitor p.Json)) (outside : ℕ → Outside) (st : Pass p)
      → AllWellFormed p ms
      → done ++ ms ≡ monitors
      → IsReady st
      → (st' : Pass p) × (pass_loop p outside ms
            (map (get_monitor_dependencies p monitors) ms)
            (length done)
            st
          ≡ ret st')
        × IsReady st'
  unfolding pass_loop
  loop_returns done [] outside st wf split ready = (st, refl, ready)
  loop_returns done (m ∷ ms) outside st wf split ready =
      let at : get_elem? monitors (length done) ≡ some m =
        subst (λ l. get_elem? l (length done) ≡ some m) split (get_elem?-append done m ms) in
      let (st1, q, ready1) =
        round_returns st m (length done) (outside (length done)) wf.0 at ready in
      let (st2, q2, ready2) =
        loop_returns (done ++ m ∷ []) ms outside st1 wf.1 (append_assoc done (m ∷ []) ms ∙ split)
          ready1 in
      (st2, rw q (rw (sym (length-snoc done m)) q2), ready2)

  -- Let the monitors be well-formed (no empty split token; no timestamps for an operation, and each
  -- of its normal results prints in fewer than 64 bytes), and let the last known values fit them, as
  -- they do at the start, where all are null. Then a pass over the monitors, with the dependencies
  -- that get_monitors_dependencies finds, runs to its end whatever the outside answers: it reads and
  -- writes inside its memory, but for the message arrays, which have fewer bytes than messages; it
  -- reads no value as one of another type and leaves every loop. The last
  -- known values after it fit the monitors again, and it returns true exactly if the peername and the
  -- community are set and a session is opened.
  pub process_monitors_array_returns :
      (outside : ℕ → Outside) (session : Bool) (last_known : List (Option (MonitorValue p.Double)))
      (params : SnmpParams)
      → AllWellFormed p monitors
      → AllFit p monitors last_known
      → (st : Pass p) × (process_monitors_array p outside session monitors last_known
            (get_monitors_dependencies p monitors)
            params
          ≡ ret (is_some params.peername && (is_some params.community && session), st))
        × AllFit p monitors st.last_known
  unfolding process_monitors_array get_monitors_dependencies start_pass
  process_monitors_array_returns outside session last_known params wf fits =
      let len = length-AllFit p monitors last_known fits in
      let enough : ltb (length last_known) (length monitors) ≡ false = ground (arith, len) in
      let ready : IsReady (start_pass p (length monitors) last_known) = record {
        copied = subst (λ n. take n last_known ≡ last_known) len (take-length last_known);
        fits = fits;
      } in
      let (st, q, ready') = loop_returns [] monitors outside _ wf refl ready in
      elim (Bool-cases (is_some params.peername && (is_some params.community && session))) [
        | inl e ↦ (st, rw (enough, e) (rw q refl), ready'.fits)
        | inr e ↦ (start_pass p (length monitors) last_known, rw (enough, e) refl, fits)
      ]

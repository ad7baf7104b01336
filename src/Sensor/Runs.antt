-- ===== src/Sensor/Runs.antt =====
-- src/rb_sensor.c: process_rb_sensor, and what it needs of a sensor and leaves.

use rb_monitor.Prelude.{ℕ, ◌≡◌, refl, Bool, true, some, List, ret, is_some, present}
use rb_monitor.Platform.{Platform}
use rb_monitor.Array.{RbArray, contents}
use rb_monitor.Value.{MonitorValue}
use rb_monitor.Value.Print.{Message}
use rb_monitor.Monitor.{Monitor}
use rb_monitor.Monitor.External.{Outside}
use rb_monitor.Monitors.Dependencies.{get_monitors_dependencies}
use rb_monitor.Monitors.Pass.Fits.{AllFit}
use rb_monitor.Monitors.Pass.Safe.{AllWellFormed, process_monitors_array_returns}
use rb_monitor.Sensor.{Sensor, process_arrays, process_rb_sensor}

module _ (p : Platform) where
  -- A sensor whose monitors can be processed: they are well-formed, the dependencies are theirs, the
  -- last values fit them, and there are a peername and a community.
  pub record IsRunnable (s : Sensor p) : Type 0 where
    pub array : RbArray (Monitor p.Json)
    pub values : RbArray (MonitorValue p.Double)
    pub monitors : s.monitors ≡ some array
    pub last_vals : s.last_vals ≡ some values
    pub op_vars : s.op_vars ≡ some (get_monitors_dependencies p (present (contents array)))
    pub well_formed : AllWellFormed p (present (contents array))
    pub fits : AllFit p (present (contents array)) values.elms
    pub peername : is_some s.snmp_params.peername ≡ true
    pub community : is_some s.snmp_params.community ≡ true

  -- process_rb_sensor runs to its end on
  -- a sensor that can be processed, whatever the outside answers; it returns true exactly if a
  -- session is opened, and the sensor can be processed again.
  pub process_rb_sensor-IsRunnable :
      (outside : ℕ → Outside) (session : Bool) (s : Sensor p)
      → IsRunnable s
      → (s' : Sensor p) × (sent : List Message) × (process_rb_sensor p outside session s
          ≡ ret (session, (s', sent)))
        × IsRunnable s'
  unfolding process_rb_sensor process_arrays
  process_rb_sensor-IsRunnable outside session s run =
      let monitors = present (contents run.array) in
      let (st, q, fits) =
        process_monitors_array_returns p monitors outside session run.values.elms s.snmp_params
          run.well_formed run.fits in
      let q' = rw (run.peername, run.community) at q in
      let values = record run.values { elms = st.last_known } in
      (
        record s { last_vals = some values },
        st.sent,
        rw (process_rb_sensor, run.monitors, run.last_vals, run.op_vars)
            (rw (process_arrays, q') refl),
        record {
          array = run.array;
          values = values;
          monitors = run.monitors;
          last_vals = refl;
          op_vars = run.op_vars;
          well_formed = run.well_formed;
          fits = fits;
          peername = run.peername;
          community = run.community;
        },
      )

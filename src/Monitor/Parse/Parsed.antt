-- ===== src/Monitor/Parse/Parsed.antt =====
-- src/rb_sensor_monitor.c: what a monitor that parse_rb_monitor returns has.
use mathlib.Core.Option
use mathlib.Core.Option.{some-injective}
use rb_monitor.Prelude.{
  ◌≡◌, refl, subst, inl, inr, true, false, Bool-cases, Option-cases, Option, none, some, ret,
  >>=-eq-ret,
}
use rb_monitor.Prelude.Int.{ℤ, nonzero}
use rb_monitor.Prelude.Text.{Text, codes}
use rb_monitor.Platform.{Platform}
use rb_monitor.Json.{parse_child_str}
use rb_monitor.Monitor.{Monitor, MonitorCmdType}
use rb_monitor.Monitor.Parse.{
  valid_split_op, kept_split_op, kept_timestamp, extract_monitor_cmd, monitor_enrichment,
  monitor_of, parse_rb_monitor0, parse_rb_monitor,
}

-- No split operation, or one of the two that there are.
abbrev pub ValidSplitOp : Option Text → Type 0
ValidSplitOp none = Unit {0}
ValidSplitOp (some op) = valid_split_op op ≡ true

module _ (p : Platform) where
  -- What a parsed monitor has: an operation has no timestamps, the split operation is a valid one,
  -- and there is an enrichment.
  pub record IsParsed (m : Monitor p.Json) : Type 0 where
    pub op_timestamp : m.type ≡ MonitorCmdType.op → m.timestamp_given ≡ false
    pub split_op : ValidSplitOp m.splitop
    pub enriched : (e : p.Json) × (m.enrichment ≡ some e)

  kept_split_op-ValidSplitOp : (o : Option Text) → ValidSplitOp (kept_split_op o)
  unfolding kept_split_op
  kept_split_op-ValidSplitOp none = tt
  kept_split_op-ValidSplitOp (some op) = elim (Bool-cases (valid_split_op op)) [
    | inl e ↦ rw e e
    | inr e ↦ rw e tt
  ]

  no_op_timestamp :
      (type : MonitorCmdType) (z : ℤ)
      → type ≡ MonitorCmdType.op
      → nonzero (kept_timestamp type z) ≡ false
  unfolding kept_timestamp
  no_op_timestamp type z h = rw h refl

  monitor_of-IsParsed :
      (type : MonitorCmdType) (cmd_arg : Text) (json_monitor : p.Json) (name : Text) (e : p.Json)
      → IsParsed (monitor_of p type cmd_arg json_monitor name e)
  unfolding monitor_of
  monitor_of-IsParsed type cmd_arg json_monitor name e = record {
    op_timestamp = λ h. no_op_timestamp type _ h;
    split_op = kept_split_op-ValidSplitOp (parse_child_str p json_monitor (codes "split_op"));
    enriched = (e, refl);
  }

  -- A result is null or a parsed monitor.
  abbrev pub ParsedIfThere : Option (Monitor p.Json) → Type 0
  ParsedIfThere none = Unit {0}
  ParsedIfThere (some m) = IsParsed m

  map-ParsedIfThere :
      (type : MonitorCmdType) (cmd_arg : Text) (json_monitor : p.Json) (name : Text)
      (e : Option p.Json)
      → ParsedIfThere (Option.map (monitor_of p type cmd_arg json_monitor name) e)
  map-ParsedIfThere type cmd_arg json_monitor name none = tt
  map-ParsedIfThere type cmd_arg json_monitor name (some e) =
      monitor_of-IsParsed type cmd_arg json_monitor name e

  parse_rb_monitor0-ParsedIfThere :
      (type : MonitorCmdType) (cmd_arg : Text) (json_monitor sensor_enrichment : p.Json)
      (r : Option (Monitor p.Json))
      → parse_rb_monitor0 p type cmd_arg json_monitor sensor_enrichment ≡ ret r
      → ParsedIfThere r
  unfolding parse_rb_monitor0
  parse_rb_monitor0-ParsedIfThere type cmd_arg json_monitor sensor_enrichment r h =
      elim (Option-cases (parse_child_str p json_monitor (codes "name"))) [
        | inl e ↦ let q : none ≡ r = cc (rw (parse_rb_monitor0, e) at h) in subst ParsedIfThere q tt
        | inr (name, e) ↦
            let (enrichment, q, back) =
              >>=-eq-ret (monitor_enrichment p type json_monitor sensor_enrichment) _
                (rw (parse_rb_monitor0, e) at h) in
            let same : Option.map (monitor_of p type cmd_arg json_monitor name) enrichment ≡ r =
              cc back in
            subst ParsedIfThere same (map-ParsedIfThere type cmd_arg json_monitor name enrichment)
      ]

  -- Whatever the description, a monitor that parse_rb_monitor returns has no timestamps if it is an
  -- operation, has no split operation or a valid one, and has an enrichment.
  pub parse_rb_monitor-IsParsed :
      (json_monitor : Option p.Json) (sensor_enrichment : p.Json) (m : Monitor p.Json)
      → parse_rb_monitor p json_monitor sensor_enrichment ≡ ret (some m)
      → IsParsed m
  unfolding parse_rb_monitor
  parse_rb_monitor-IsParsed none sensor_enrichment m h = cc
  parse_rb_monitor-IsParsed (some json_monitor) sensor_enrichment m h =
      elim (Option-cases (extract_monitor_cmd p json_monitor)) [
        | inl e ↦ let h' = rw (parse_rb_monitor, e) at h in cc h'
        | inr ((type, cmd_arg), e) ↦
            parse_rb_monitor0-ParsedIfThere type cmd_arg json_monitor sensor_enrichment (some m)
              (rw (parse_rb_monitor, e) at h)
      ]

-- ===== src/Main/Shutdown/Released.antt =====
-- src/main.c: what main releases when it ends.
use rb_monitor.Prelude.{Option, List, [], ◌∷◌, if◌then◌else◌}
use rb_monitor.Main.Shutdown.{
  Call, join_worker, join_delivery_reports, poll, topic_destroy, kafka_destroy, join_report,
  http_handler_destroy, Started,
}

-- The calls that release something: all but joins and polls.
abbrev pub releases : List Call → List Call
releases [] = []
releases (join_worker i ∷ rest) = releases rest
releases (join_delivery_reports ∷ rest) = releases rest
releases (poll ms ∷ rest) = releases rest
releases (join_report ∷ rest) = releases rest
releases (call ∷ rest) = call ∷ releases rest

-- The producer is there if rd_kafka_new was called, the handler if there is an endpoint.
abbrev pub of_kafka : Started → List Call
of_kafka s = if s.kafka_broker then if s.rk then topic_destroy ∷ kafka_destroy ∷ [] else [] else []

abbrev pub of_http : Started → List Call
of_http s = if s.http_endpoint then http_handler_destroy ∷ [] else []

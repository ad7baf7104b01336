-- ===== src/Send.antt =====
-- src/main.c: how a worker sends the messages of a sensor.
use rb_monitor.Prelude.{
  Bool, true, false, List, [], ◌∷◌, ◌++◌, ◌≡◌, refl, ap, ◌∙◌, sym, if◌then◌else◌,
}
use mathlib.Core.List.{append_assoc}
use rb_monitor.Value.Print.{Message}

-- rd_kafka_produce and rb_http_produce, with the message.
pub data SendCall : Type 0 where
  rd_kafka_produce : Message → SendCall
  rb_http_produce : Message → SendCall

abbrev pub call_if : Bool → SendCall → List SendCall
call_if true call = call ∷ []
call_if false call = []

-- `kafka` is whether there is a broker, `http` whether there is a handler. Errors are logged.
unfoldable pub worker_process_sensor_send_array : Bool → Bool → List Message → List SendCall
worker_process_sensor_send_array kafka http [] = []
worker_process_sensor_send_array kafka http (msg ∷ msgs) =
    call_if kafka (rd_kafka_produce msg)
    ++ (call_if http (rb_http_produce msg) ++ worker_process_sensor_send_array kafka http msgs)

unfoldable pub worker_process_sensor_send_messages :
    Bool → Bool → List (List Message) → List SendCall
unfolding worker_process_sensor_send_array
worker_process_sensor_send_messages kafka http [] = []
worker_process_sensor_send_messages kafka http (array ∷ msgs) =
    worker_process_sensor_send_array kafka http array
    ++ worker_process_sensor_send_messages kafka http msgs

-- The messages that Kafka and the HTTP handler get.
abbrev pub to_kafka : List SendCall → List Message
to_kafka [] = []
to_kafka (rd_kafka_produce msg ∷ calls) = msg ∷ to_kafka calls
to_kafka (rb_http_produce msg ∷ calls) = to_kafka calls

abbrev pub to_http : List SendCall → List Message
to_http [] = []
to_http (rd_kafka_produce msg ∷ calls) = to_http calls
to_http (rb_http_produce msg ∷ calls) = msg ∷ to_http calls

abbrev pub join : List (List Message) → List Message
join [] = []
join (array ∷ msgs) = array ++ join msgs

-- Each sink that is there gets every message once, in order; one that is not gets none.
pub send_array_to_each :
    (kafka http : Bool) (msgs : List Message)
    → (to_kafka (worker_process_sensor_send_array kafka http msgs) ≡ (if kafka then msgs else []))
      × (to_http (worker_process_sensor_send_array kafka http msgs) ≡ (if http then msgs else []))
unfolding worker_process_sensor_send_array
send_array_to_each true true [] = (refl, refl)
send_array_to_each true false [] = (refl, refl)
send_array_to_each false true [] = (refl, refl)
send_array_to_each false false [] = (refl, refl)
send_array_to_each true true (m ∷ msgs) =
    let (k, h) = send_array_to_each true true msgs in (ap (λ l. m ∷ l) k, ap (λ l. m ∷ l) h)
send_array_to_each true false (m ∷ msgs) =
    let (k, h) = send_array_to_each true false msgs in (ap (λ l. m ∷ l) k, h)
send_array_to_each false true (m ∷ msgs) =
    let (k, h) = send_array_to_each false true msgs in (k, ap (λ l. m ∷ l) h)
send_array_to_each false false (m ∷ msgs) = send_array_to_each false false msgs

send_array-append :
    (kafka http : Bool) (a b : List Message)
    → worker_process_sensor_send_array kafka http (a ++ b)
      ≡ worker_process_sensor_send_array kafka http a
        ++ worker_process_sensor_send_array kafka http b
unfolding worker_process_sensor_send_array
send_array-append kafka http [] b = refl
send_array-append kafka http (m ∷ a) b =
    ap (λ l. call_if kafka (rd_kafka_produce m) ++ (call_if http (rb_http_produce m) ++ l))
      (send_array-append kafka http a b)
    ∙ ap (λ l. call_if kafka (rd_kafka_produce m) ++ l)
        (sym (append_assoc (call_if http (rb_http_produce m)) _ _))
    ∙ sym (append_assoc (call_if kafka (rd_kafka_produce m)) _ _)

-- The arrays of the list are sent as one.
pub send_messages-join :
    (kafka http : Bool) (msgs : List (List Message))
    → worker_process_sensor_send_messages kafka http msgs
      ≡ worker_process_sensor_send_array kafka http (join msgs)
unfolding worker_process_sensor_send_messages worker_process_sensor_send_array
send_messages-join kafka http [] = refl
send_messages-join kafka http (array ∷ msgs) =
    ap (λ l. worker_process_sensor_send_array kafka http array ++ l)
      (send_messages-join kafka http msgs)
    ∙ sym (send_array-append kafka http array (join msgs))

-- ===== src/Common/Messaging.antt =====
-- common/messaging/kafka.go: messages, the consumer's loop over a claim, and the publisher. The
-- Kafka client (sarama) is a parameter.
use msa_saga_go_practical.Prelude.{ℕ, ◌≡◌, ap, refl, Bool, true, List, [], ◌∷◌}
use msa_saga_go_practical.Prelude.Int.{ℤ}
use msa_saga_go_practical.Prelude.Text.{Text, text}
use msa_saga_go_practical.Prelude.Decimal.{decimal_ℤ}
use msa_saga_go_practical.Common.Errors.{Error}
use msa_saga_go_practical.Common.Events.{EventType}
use msa_saga_go_practical.Common.Result.{Result, ok, err}
use msa_saga_go_practical.Common.Wire.{Payload, object, malformed}

-- `Message`, with the topic read as an event type, as the handlers' switches do.
pub record Message : Type 0 where
  pub topic : EventType
  pub partition : ℕ
  pub offset : ℕ
  pub key : Text
  pub value : Payload

-- `MessageHandler`, over whatever state the handler reads and writes.
abbrev pub MessageHandler : Type 0 → Type 0
MessageHandler S = Message → S → Result (Unit {0}) × S

-- `sarama.ProducerMessage`
pub record ProducerMessage : Type 0 where
  pub topic : EventType
  pub key : Text
  pub value : Payload

-- `sarama.SyncProducer`: the broker's state, and `SendMessage`.
pub record Producer : Type 1 where
  pub State : Type 0
  pub send : ProducerMessage → State → Result (Unit {0}) × State

-- `json.Marshal` of a `json.RawMessage`, which is refused if it is no JSON text.
abbrev remarshal : Payload → Result Payload
remarshal (object m) = ok (object m)
remarshal malformed = err (Error.errorf_w (text "failed to marshal event") Error.bad_json)

abbrev send_failed : Result (Unit {0}) → Result (Unit {0})
send_failed (ok done) = ok done
send_failed (err e) = err (Error.errorf_w (text "failed to send message") e)

module _ (producer : Producer) where
  unfoldable pub publish :
      EventType → Text → Payload → producer.State → Result (Unit {0}) × producer.State
  publish topic key payload st = elim (remarshal payload) [
    | err e ↦ (err e, st)
    | ok value ↦
        let (r, st') = producer.send (record { topic = topic; key = key; value = value }) st in
        (send_failed r, st')
  ]

  -- `PublishWithOrderID`
  pub publish_with_order_id :
      EventType → ℤ → Payload → producer.State → Result (Unit {0}) × producer.State
  unfolding publish
  publish_with_order_id topic order_id payload = publish topic (decimal_ℤ order_id) payload

-- The loop of `ConsumeClaim`: each message is handled, an error is only logged, and the message is
-- marked in either case. The result is the handler's state and the marked messages, in order.
unfoldable pub consume_claim : {S : Type 0} → MessageHandler S → List Message → S → S × List Message
consume_claim handler [] s = (s, [])
consume_claim handler (m ∷ ms) s =
    let (r, s') = handler m s in let (s'', marks) = consume_claim handler ms s' in (s'', m ∷ marks)

-- The state after every message has been handled once, whatever the handler has answered.
unfoldable pub after_all : {S : Type 0} → MessageHandler S → List Message → S → S
after_all handler [] s = s
after_all handler (m ∷ ms) s = after_all handler ms (handler m s).1

-- Whatever the handler answers, every message of a claim is handled exactly once, in the order of the
-- claim, and every message is marked, those included for which the handler fails.
pub consume_claim_marks_all :
    {S : Type 0} (handler : MessageHandler S) (ms : List Message) (s : S)
    → consume_claim handler ms s ≡ (after_all handler ms s, ms)
unfolding consume_claim after_all
consume_claim_marks_all handler [] s = refl
consume_claim_marks_all handler (m ∷ ms) s =
    let ih = consume_claim_marks_all handler ms (handler m s).1 in
    ap (λ (r : _ × List Message). (r.0, m ∷ r.1)) ih

-- `NewKafkaPublisher` and `NewKafkaConsumer`: the settings that they give to the client, and what they
-- make of its refusal.
pub data Acks : Type 0 where
  no_response wait_for_local wait_for_all : Acks

pub record ProducerConfig : Type 0 where
  pub return_successes : Bool
  pub required_acks : Acks
  pub retry_max : ℕ
  pub idempotent : Bool
  pub max_open_requests : ℕ

abbrev pub producer_config : ProducerConfig
producer_config = record {
  return_successes = true;
  required_acks = wait_for_all;
  retry_max = 5;
  idempotent = true;
  max_open_requests = 1;
}

pub data Strategy : Type 0 where
  round_robin range sticky : Strategy

pub data InitialOffset : Type 0 where
  oldest newest : InitialOffset

pub record ConsumerConfig : Type 0 where
  pub rebalance : Strategy
  pub initial : InitialOffset
  pub return_errors : Bool

abbrev pub consumer_config : ConsumerConfig
consumer_config = record { rebalance = round_robin; initial = oldest; return_errors = true }

abbrev created : {A : Type 0} → Text → Result A → Result A
created message (ok client) = ok client
created message (err e) = err (Error.errorf_w message e)

-- `sarama.NewSyncProducer` and `sarama.NewConsumerGroup` are arguments.
module _ {A : Type 0} where
  unfoldable pub new_kafka_publisher :
      (List Text → ProducerConfig → Result A) → List Text → Result A
  new_kafka_publisher new_sync_producer brokers =
      created (text "failed to create kafka producer") (new_sync_producer brokers producer_config)

  unfoldable pub new_kafka_consumer :
      (List Text → Text → ConsumerConfig → Result A) → List Text → Text → Result A
  new_kafka_consumer new_consumer_group brokers group_id =
      created (text "failed to create consumer group")
        (new_consumer_group brokers group_id consumer_config)

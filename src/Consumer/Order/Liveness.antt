-- ===== src/Consumer/Order/Liveness.antt =====
-- What the loop of consumer/order.py gets done where the services around it answer.
use kafka_order_event_platfo.Prelude.{List}
use kafka_order_event_platfo.Kafka.Consumer.{Polled}
use kafka_order_event_platfo.Consumer.World.{World}
use kafka_order_event_platfo.Consumer.Order.Handled.{Handled}

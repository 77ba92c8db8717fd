-- ===== src/Broker/Publisher/Processor/Order.antt =====
-- Any interleaving of the processor with the publishers and with what its stream delivers.
use rabbitmq_kit_go.Prelude.{List}
use rabbitmq_kit_go.Broker.Publisher.{Publisher}
use rabbitmq_kit_go.Broker.Publisher.Processor.{Processor}

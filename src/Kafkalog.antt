-- ===== src/Kafkalog.antt =====
-- internal/kafkalog/kafkalog.go: the change log. The broker client is a library: `Broker` in `Log` is
-- what it answers. The decoding and encoding of a protobuf value are parameters.
pub mod Read
pub mod Laws
pub mod Log
pub mod Loop
pub mod Replayed
pub mod Promises
pub mod Meets
pub mod Retries
pub mod Answers

-- ===== src/Consumer/Errors.antt =====
-- The errors of a handler: shared/src/events/consumer.rs.

-- They tell the consumer whether to try again.
pub data HandlerError : Type 0 where
  transient permanent : HandlerError

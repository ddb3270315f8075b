-- ===== src/Rmq.antt =====
-- internal/rmq: what the broker delivers, and the batching of deliveries. The broker and its client
-- library are outside: a delivery is the part of `amqp091.Delivery` that the program reads.
pub mod Batch
pub mod Connection
pub mod Channels
use csar_notify.Base.{Bool, List, Option, Text, ℕ, ℤ}

-- An entry of the x-death header: a table, with its "count" where that is an int64, or not.
pub data Death : Type 0 where
  table : Option ℤ → Death
  other_entry : Death

-- The x-death header: absent, of another type, or a list of entries.
pub data XDeath : Type 0 where
  absent : XDeath
  other_type : XDeath
  deaths : List Death → XDeath

pub record Delivery : Type 0 where
  pub delivery_tag : ℕ
  pub redelivered : Bool
  pub x_death : XDeath
  pub body : Text

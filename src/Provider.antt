-- ===== src/Provider.antt =====
-- internal/provider: the interface of a provider, the registry, and the classification of send
-- errors. What a provider does to the world is a function on an abstract state `W`.
pub mod Errors
pub mod Joins
pub mod Registry
use csar_notify.Base.{GoError, Option, Text}
use csar_notify.Domain.{Notification}

-- type Provider interface
pub record Provider (W : Type 0) : Type 0 where
  pub name : Text
  pub channel : Text
  pub send : Notification → Text → Text → W → Option GoError × W
  pub close : W → Option GoError × W

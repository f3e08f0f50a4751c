-- ===== src/Forms/Reply.antt =====
-- How a mutation settles, and the toasts that a form shows.
use core_banking_system.Prelude.{String}
use core_banking_system.Client.Errors.{Thrown}

-- The answer to a mutation: its result, or what it threw.
pub data Reply {ℓ} (A : Type ℓ) : Type ℓ where
  succeeded : A → Reply A
  failed : Thrown → Reply A

pub data Toast : Type 0 where
  success error : String → Toast

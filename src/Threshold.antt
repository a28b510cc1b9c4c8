-- ===== src/Threshold.antt =====
-- crates/identity/src/threshold.rs: the shares of a secret, and the errors of sharing one. A `u8`
-- is a native number below 256; `^`, `&` are `bit_xor` and `bit_and`.
pub mod Xor
pub mod Gf
pub mod Linear
pub mod Field
pub mod Algebra
pub mod Polynomials
pub mod Interpolation
pub mod Sharing
pub mod ByteField
pub mod Terms
pub mod Splitting
pub mod Recovery
pub mod Secrets
pub mod Hiding
pub mod Secrecy
pub mod Devices
mod Tests
use shadowgram.Base.Outcome.{Outcome, ok, err}
use shadowgram.Base.{ltb, if◌then◌else◌, ℕ, String, Bytes}

pub data ShareError : Type 0 where
  invalid_threshold : ShareError
  too_few_shares : ℕ → ℕ → ShareError
  invalid_index : ℕ → ShareError
  verification_failed : ShareError
  serialization_error : String → ShareError

pub record SecretShare : Type 0 where
  pub index : ℕ
  pub data_bytes : Bytes

pub record ThresholdConfig : Type 0 where
  pub total : ℕ
  pub threshold : ℕ

unfoldable pub new : ℕ → ℕ → Outcome ThresholdConfig ShareError
new total threshold =
    if ltb total threshold
    then err invalid_threshold
    else if ltb threshold 1
    then err invalid_threshold
    else ok (record { total = total; threshold = threshold })

abbrev pub default : ThresholdConfig
default = record { total = 5; threshold = 3 }

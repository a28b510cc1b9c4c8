-- ===== src/Threshold/Devices.antt =====
-- crates/identity/src/threshold.rs: `MultiDeviceSync`, which shares an identity key among devices.
use shadowgram.Base.{ℕ, List, Bytes}
use shadowgram.Base.Outcome.{Outcome}
use shadowgram.Threshold.{ShareError, SecretShare, ThresholdConfig}
use shadowgram.Threshold.Sharing.{split, reconstruct}

pub record MultiDeviceSync : Type 0 where
  pub config : ThresholdConfig

abbrev pub new : ThresholdConfig → MultiDeviceSync
new config = record { config = config }

unfoldable pub split_identity_key :
    MultiDeviceSync → Bytes → (ℕ → ℕ → ℕ) → Outcome (List SecretShare) ShareError
split_identity_key self private_key_bytes random =
    split private_key_bytes self.config.threshold self.config.total random

unfoldable pub reconstruct_identity_key :
    MultiDeviceSync → List SecretShare → Outcome Bytes ShareError
reconstruct_identity_key self shares = reconstruct shares self.config.threshold

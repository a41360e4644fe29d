-- ===== src/Adc/Types.antt =====
-- The data of drivers/adc/adc_hpmicro_adc12.c.
use hpm_support.Prelude.{ℕ, Bool}

-- `struct adc_channel_cfg`; the last three say whether a field has the value that is supported.
pub record ChannelCfg : Type 0 where
  pub channel_id : ℕ
  pub differential : Bool
  pub default_acquisition : Bool
  pub gain_1 : Bool
  pub internal_reference : Bool

-- `struct adc_sequence`; `buffer` is an address.
pub record Sequence : Type 0 where
  pub channels : ℕ
  pub buffer : ℕ
  pub resolution : ℕ
  pub oversampling : ℕ

-- `struct hpmicro_adc12_data`, with Zephyr's context, the unit and the memory by its addresses
pub record Dev (Ctx Hw : Type 0) : Type 0 where
  pub ctx : Ctx
  pub buffer : ℕ
  pub repeat_buffer : ℕ
  pub channels : ℕ
  pub channel_num : ℕ
  pub resolution : ℕ
  pub hw : Hw
  pub mem : ℕ → ℕ

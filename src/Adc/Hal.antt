-- ===== src/Adc/Hal.antt =====
-- What drivers/adc/adc_hpmicro_adc12.c calls and does not define: Zephyr's context of a reading (`Os`)
-- and the vendor's library with the registers (`Hal`).
use hpm_support.Prelude.{ℕ, Bool, Option, List}
use hpm_support.Errno.{Errno, Status}
use hpm_support.Adc.Types.{Sequence, Dev}

pub record Os (Ctx Hw : Type 0) : Type 0 where
  -- `adc_context_lock` with whether it is asynchronous, `adc_context_start_read`, which can start the
  -- sampling, and the wait for the completion: what the kernel, other threads and the interrupt do
  pub lock : Bool → Dev Ctx Hw → Dev Ctx Hw
  pub start_read : Sequence → Dev Ctx Hw → Dev Ctx Hw
  pub wait_for_completion : Dev Ctx Hw → Status × Dev Ctx Hw
  pub release : Status → Ctx → Ctx
  pub sequence_channels : Ctx → ℕ
  pub on_sampling_done : Dev Ctx Hw → Dev Ctx Hw
  pub unlock_unconditionally : Ctx → Ctx
  -- `find_lsb_set`
  pub find_lsb_set : ℕ → ℕ

-- `adc12_res_*_bits`
pub data Res : Type 0 where
  res_6 res_8 res_10 res_12 : Res

pub record Hal (Hw : Type 0) : Type 0 where
  pub is_channel_invalid : ℕ → Bool
  pub set_resolution : Res → Hw → Hw
  pub init_channel : ℕ → Hw → Hw
  -- `adc12_set_seq_config` with the queue of channels, and `adc12_init_seq_dma` with its length
  pub set_seq_config : List ℕ → Hw → Hw
  pub init_seq_dma : ℕ → Hw → Hw
  pub trig_en : Bool
  pub trigger_mux_config : Hw → Hw
  pub enable_complete_interrupt : Hw → Hw
  pub trigger_seq_by_sw : Hw → Hw
  -- the flag of the end of the sequence; the flags that were read are cleared
  pub is_complete : Hw → Bool
  pub clear_status_flags : Hw → Hw
  -- a word of 16 bits
  pub oneshot_result : ℕ → Hw → ℕ × Hw
  pub set_up_clock : Hw → Hw
  pub apply_pinctrl : Hw → Option Errno × Hw
  pub adc_init : Hw → Hw
  pub irq_config : Hw → Hw

-- ===== src/Camera/Hal.antt =====
-- What drivers/video/camera_hpmicro.c calls and does not define: the kernel and the video buffers
-- (`Os`), the vendor's library with the registers and the MIPI receiver (`Hal`), and the instance's
-- configuration (`Config`).
use hpm_support.Prelude.{ℕ, Bool, Option}
use hpm_support.Errno.{Errno}
use hpm_support.Zephyr.{Timeout}
use hpm_support.Camera.Types.{Vbuf, CamConfig, Cause, PixelFormat, Dev}

pub record Os (Fifo Hw : Type 0) : Type 0 where
  -- `k_fifo_init`, `k_fifo_get` with K_NO_WAIT, `k_fifo_put`, `k_fifo_is_empty`
  pub fifo_init : Fifo
  pub fifo_get : Fifo → Option Vbuf × Fifo
  pub fifo_put : Vbuf → Fifo → Fifo
  pub fifo_is_empty : Fifo → Bool
  -- `k_fifo_get` of `fifo_out` with a time to wait, and `k_sleep` of a millisecond: what other threads
  -- and the interrupt do until they return
  pub wait_out : Timeout → Dev Fifo Hw → Option Vbuf × Dev Fifo Hw
  pub sleep : Dev Fifo Hw → Dev Fifo Hw
  pub uptime_32 : Hw → ℕ
  pub buffer_alloc : ℕ → Hw → Option Vbuf × Hw
  pub buffer_release : Vbuf → Hw → Hw
  -- the word that a read of `buffer` through a NULL pointer gives
  pub null_word : Hw → ℕ

pub record Hal (Hw : Type 0) : Type 0 where
  -- a status that is set and enabled as an interrupt
  pub is_raised : Cause → Hw → Bool
  pub clear_status : Cause → Hw → Hw
  -- `DMASA_FB1` and `DMASA_FB2`
  pub dmasa_fb1 : Hw → ℕ
  pub dmasa_fb2 : Hw → ℕ
  pub update_buffer : ℕ → Hw → Hw
  pub update_buffer2 : ℕ → Hw → Hw
  pub dc_is_enabled : Hw → Bool
  pub dc_invalidate : ℕ → ℕ → Hw → Hw
  pub align_down : ℕ → ℕ
  pub align_up : ℕ → ℕ
  -- `CAM_COLOR_FORMAT_*`
  pub raw8 : ℕ
  pub rgb565_format : ℕ
  pub yuv422 : ℕ
  pub default_config : CamConfig
  pub cam_init : CamConfig → Hw → Bool × Hw
  pub enable_fb_irqs : Hw → Hw
  pub enable_start_of_frame_irq : Hw → Hw
  pub cam_start : Hw → Hw
  pub cam_stop_safely : Hw → Hw
  -- the receiver's `set_pixel_format`, true when it fails, and its `init`
  pub set_pixel_format : PixelFormat → Hw → Bool × Hw
  pub init_receiver : Hw → Hw
  pub apply_pinctrl : Hw → Option Errno × Hw
  pub select_dvp : Hw → Hw
  pub set_up_clock : Hw → Hw
  pub irq_config : Hw → Hw

-- The property `interface`
pub data Name : Type 0 where
  name_dvp name_mipi other_name : Name

-- The instance, and the options CONFIG_POLL, CONFIG_MIPI_CSI_HPMICRO,
-- CONFIG_CAMERA_PIXELMUX_HPMICRO and HPM_IP_FEATURE_CAM_INV_DEN
pub record Config : Type 0 where
  pub interface_name : Name
  pub has_phy : Bool
  pub has_phy_init : Bool
  pub hsync_active_low : Bool
  pub vsync_active_low : Bool
  pub pixclk_sampling_falling : Bool
  pub poll : Bool
  pub mipi : Bool
  pub pixelmux : Bool
  pub inv_den : Bool

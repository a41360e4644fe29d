-- ===== src/Camera/Types.antt =====
-- The data of drivers/video/camera_hpmicro.c, without the semaphore and the mutex, which are only
-- initialised.
use hpm_support.Prelude.{ℕ, Bool, Option, List}

-- `struct video_buffer`; `id` tells one structure from another, as its address does.
pub record Vbuf : Type 0 where
  pub id : ℕ
  pub buffer : ℕ
  pub bytesused : ℕ
  pub timestamp : ℕ

pub data Interface : Type 0 where
  interface_none dvp mipi_csi : Interface

pub data PixelFormat : Type 0 where
  bggr8 gbrg8 grbg8 rggb8 rgb565 yuyv xrgb32 other_format : PixelFormat

-- `struct video_format`
pub record Format : Type 0 where
  pub pixelformat : PixelFormat
  pub width : ℕ
  pub height : ℕ
  pub pitch : ℕ

-- The fields of `cam_config_t` that the driver sets
pub record CamConfig : Type 0 where
  pub width : ℕ
  pub height : ℕ
  pub hsync_active_low : Bool
  pub vsync_active_low : Bool
  pub pixclk_sampling_falling : Bool
  pub color_format : ℕ
  pub de_active_low : Bool
  pub color_ext : Bool
  pub sensor_24bits : Bool
  pub buffer1 : ℕ

-- `enum video_signal_result`
pub data Outcome : Type 0 where
  buf_done buf_aborted buf_error : Outcome

-- The causes of an interrupt
pub data Cause : Type 0 where
  start_of_frame fb1_done fb2_done : Cause

-- `struct hpmicro_cam_data`, the unit, and the results that signals were raised with, the latest
-- first
pub record Dev (Fifo Hw : Type 0) : Type 0 where
  pub fifo_in : Fifo
  pub fifo_out : Fifo
  pub cam_config : CamConfig
  pub camera_interface : Interface
  pub pitch : ℕ
  pub pixelformat : PixelFormat
  pub signal : Option ℕ
  pub cam_buffer : Option Vbuf
  pub cam_dmafb_index : ℕ
  pub raised : List Outcome
  pub hw : Hw

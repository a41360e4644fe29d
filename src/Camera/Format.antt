-- ===== src/Camera/Format.antt =====
-- hpmicro_get_video_pixel_format, hpmicro_cam_set_fmt and hpmicro_cam_get_fmt. An endpoint is given by
-- whether it is VIDEO_EP_OUT.
use hpm_support.Prelude.{
  ℕ, ◌*◌, ◌%◌, ◌==◌, Bool, true, false, not, ◌&&◌, ◌||◌, Option, none, some, if◌then◌else◌,
}
use hpm_support.Errno.{Status, success, err, einval, eio}
use hpm_support.Camera.Types.{
  Vbuf, Interface, interface_none, dvp, mipi_csi, PixelFormat, bggr8, gbrg8, grbg8, rggb8, rgb565,
  yuyv, xrgb32, other_format, Format, CamConfig, Dev,
}
use hpm_support.Camera.Hal.{Os, Hal, Config}
use hpm_support.Camera.Isr.{cam_addr}

abbrev pub is_mipi : Interface → Bool
is_mipi mipi_csi = true
is_mipi dvp = false
is_mipi interface_none = false

abbrev pub is_none : Interface → Bool
is_none interface_none = true
is_none dvp = false
is_none mipi_csi = false

module _ {Fifo Hw : Type 0} (os : Os Fifo Hw) (hal : Hal Hw) (cfg : Config) where
  -- `hpmicro_get_video_pixel_format`
  abbrev pub pixel_format : PixelFormat → ℕ
  pixel_format bggr8 = hal.raw8
  pixel_format gbrg8 = hal.raw8
  pixel_format grbg8 = hal.raw8
  pixel_format rggb8 = hal.raw8
  pixel_format rgb565 = hal.rgb565_format
  pixel_format yuyv = hal.yuv422
  pixel_format xrgb32 = 0
  pixel_format other_format = 0

  -- The unit's configuration, before the buffer
  abbrev pub config_for : Interface → Format → CamConfig
  config_for i f =
      let c : CamConfig = record (hal.default_config) {
        width = f.width;
        height = f.height;
        hsync_active_low = cfg.hsync_active_low;
        vsync_active_low = cfg.vsync_active_low;
        pixclk_sampling_falling = cfg.pixclk_sampling_falling;
        color_format = pixel_format f.pixelformat;
      } in
      if is_mipi i
      then record c {
        de_active_low = cfg.inv_den || c.de_active_low;
        color_ext = true;
        sensor_24bits = true;
      }
      else c

  -- The format with the pitch that is used
  abbrev pub with_pitch : Interface → Format → Format
  with_pitch i f = if is_mipi i then record f { pitch = (4 * f.width) % 4294967296 } else f

  abbrev pub allocated : Option Vbuf × Hw → Dev Fifo Hw → Dev Fifo Hw
  allocated (b, hw) d = record d { cam_buffer = b; hw = hw }

  -- The driver's own buffer, allocated if there is none
  abbrev pub ensure_buffer : Option Vbuf → Format → Dev Fifo Hw → Dev Fifo Hw
  ensure_buffer (some b) f d = d
  ensure_buffer none f d = allocated (os.buffer_alloc ((f.pitch * f.height) % 4294967296) d.hw) d

  abbrev pub initialised : Bool × Hw → Dev Fifo Hw → Status × Dev Fifo Hw
  initialised (true, hw) d =
      (success, record d { hw = hal.enable_start_of_frame_irq (hal.enable_fb_irqs hw) })
  initialised (false, hw) d = (err eio, record d { hw = hw })

  abbrev pub received : Bool × Hw → Dev Fifo Hw → Status × Dev Fifo Hw
  received (true, hw) d = (err eio, record d { hw = hw })
  received (false, hw) d = initialised (hal.cam_init d.cam_config hw) (record d { hw = hw })

  abbrev pub apply_format : PixelFormat → Dev Fifo Hw → Status × Dev Fifo Hw
  apply_format p d =
      if cfg.mipi && is_mipi d.camera_interface && cfg.has_phy
      then received (hal.set_pixel_format p d.hw) d
      else received (false, d.hw) d

  abbrev pub use_buffer : Dev Fifo Hw → Dev Fifo Hw
  use_buffer d = record d {
    cam_config = record (d.cam_config) { buffer1 = cam_addr os hal cfg d.cam_buffer d.hw };
  }

  -- `hpmicro_cam_set_fmt`: the status, the format and the device
  unfoldable pub set_fmt : Bool → Format → Dev Fifo Hw → Status × Format × Dev Fifo Hw
  set_fmt is_out f d =
      let i = d.camera_interface in
      let g = with_pitch i f in
      let c : Dev Fifo Hw = record d {
        cam_config = config_for i f;
        pitch = g.pitch;
        pixelformat = f.pixelformat;
      } in
      let (st, r) = apply_format f.pixelformat (use_buffer (ensure_buffer d.cam_buffer g c)) in
      if (pixel_format f.pixelformat == 0) || not is_out || is_none i
      then (err einval, f, d)
      else (st, g, r)

  -- `hpmicro_cam_get_fmt`, for a pointer that is not NULL
  unfoldable pub get_fmt : Bool → Format → Dev Fifo Hw → Status × Format
  get_fmt is_out f d =
      if is_out
      then (
        success,
        record {
          pixelformat = if is_mipi d.camera_interface then xrgb32 else d.pixelformat;
          width = d.cam_config.width;
          height = d.cam_config.height;
          pitch = d.pitch;
        },
      )
      else (err einval, f)

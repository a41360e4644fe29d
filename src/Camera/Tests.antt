-- ===== src/Camera/Tests.antt =====
-- Runs of drivers/video/camera_hpmicro.c on a simulated unit, and the instances of its theorems.
use hpm_support.Prelude.{
  ℕ, ◌+◌, ◌≡◌, refl, Bool, true, false, none, some, List, [], ◌∷◌, ◌++◌, arith, is_empty,
}
use hpm_support.Errno.{success}
use hpm_support.Camera.Types.{
  Vbuf, dvp, rgb565, CamConfig, Cause, start_of_frame, fb1_done, fb2_done, buf_error, Dev,
}
use hpm_support.Camera.Hal.{Os, Hal, Config, name_dvp}
use hpm_support.Camera.Isr.{isr}
use hpm_support.Camera.Isr.Rounds.{FifoLaws, head_of, tail_of}
use hpm_support.Camera.Isr.Conserved.{count, isr-conserves}
use hpm_support.Camera.Isr.Deliver.{isr-delivers}
use hpm_support.Camera.Queue.{flush}
use hpm_support.Camera.Queue.Flush.{flush-cancel}

-- The unit: its two addresses and the causes that are raised
record Sim : Type 0 where
  fb1 : ℕ
  fb2 : ℕ
  starts : Bool
  done1 : Bool

abbrev raised_in : Cause → Sim → Bool
raised_in start_of_frame w = w.starts
raised_in fb1_done w = w.done1
raised_in fb2_done w = false

abbrev cam_config : CamConfig
cam_config = record {
  width = 320;
  height = 240;
  hsync_active_low = false;
  vsync_active_low = false;
  pixclk_sampling_falling = false;
  color_format = 4;
  de_active_low = false;
  color_ext = false;
  sensor_24bits = false;
  buffer1 = 0;
}

abbrev hal : Hal Sim
hal = record {
  is_raised = raised_in;
  clear_status = λ c w. w;
  dmasa_fb1 = λ w. w.fb1;
  dmasa_fb2 = λ w. w.fb2;
  update_buffer = λ a w. record w { fb1 = a };
  update_buffer2 = λ a w. record w { fb2 = a };
  dc_is_enabled = λ w. true;
  dc_invalidate = λ a n w. w;
  align_down = λ a. a;
  align_up = λ a. a;
  raw8 = 15;
  rgb565_format = 4;
  yuv422 = 7;
  default_config = cam_config;
  cam_init = λ c w. (true, w);
  enable_fb_irqs = λ w. w;
  enable_start_of_frame_irq = λ w. w;
  cam_start = λ w. w;
  cam_stop_safely = λ w. w;
  set_pixel_format = λ p w. (false, w);
  init_receiver = λ w. w;
  apply_pinctrl = λ w. (none, w);
  select_dvp = λ w. w;
  set_up_clock = λ w. w;
  irq_config = λ w. w;
}

abbrev os : Os (List Vbuf) Sim
os = record {
  fifo_init = [];
  fifo_get = λ q. (head_of q, tail_of q);
  fifo_put = λ v q. q ++ (v ∷ []);
  fifo_is_empty = λ q. is_empty q;
  wait_out = λ t d. (head_of d.fifo_out, record d { fifo_out = tail_of d.fifo_out });
  sleep = λ d. d;
  uptime_32 = λ w. 77;
  buffer_alloc = λ n w. (none, w);
  buffer_release = λ b w. w;
  null_word = λ w. 0;
}

abbrev cfg : Config
cfg = record {
  interface_name = name_dvp;
  has_phy = false;
  has_phy_init = false;
  hsync_active_low = false;
  vsync_active_low = false;
  pixclk_sampling_falling = false;
  poll = true;
  mipi = false;
  pixelmux = false;
  inv_den = false;
}

laws : FifoLaws os (λ q. q)
laws = record { get_lem = λ q. refl; get_items = λ q. refl; put_items = λ v q. refl }

abbrev vbuf : ℕ → Vbuf
vbuf n = record { id = n; buffer = 1000 + n; bytesused = 16; timestamp = 0 }

-- Three buffers wait, of which the unit has the second and the first.
abbrev dev : Bool → Bool → Dev (List Vbuf) Sim
dev starts done1 = record {
  fifo_in = vbuf 1 ∷ vbuf 2 ∷ vbuf 3 ∷ [];
  fifo_out = [];
  cam_config = cam_config;
  camera_interface = dvp;
  pitch = 640;
  pixelformat = rgb565;
  signal = some 5;
  cam_buffer = none;
  cam_dmafb_index = 0;
  raised = [];
  hw = record { fb1 = 1001; fb2 = 1002; starts = starts; done1 = done1 };
}

isr-conserves_example :
    (r : Dev (List Vbuf) Sim) × (isr os hal cfg 5 (dev true true) ≡ some r)
    × (count 2 (Dev.fifo_in r) + count 2 (Dev.fifo_out r) ≡ 1)
isr-conserves_example = isr-conserves os hal cfg (λ q. q) laws 2 4 (dev true true) (omega arith)

isr-delivers_example :
    (r : Dev (List Vbuf) Sim) × (isr os hal cfg 1 (dev false true) ≡ some r)
    × (Dev.fifo_in r ≡ vbuf 2 ∷ vbuf 3 ∷ [])
    × (Dev.fifo_out r ≡ record (vbuf 1) { timestamp = 77 } ∷ [])
    × (r.raised ≡ buf_error ∷ [])
isr-delivers_example =
    isr-delivers os hal cfg (λ q. q) laws 0 5 (dev false true) (vbuf 1) (vbuf 2 ∷ vbuf 3 ∷ []) refl
      refl refl refl refl refl

flush-cancel_example :
    (r : Dev (List Vbuf) Sim) × (flush os hal cfg 4 true (dev false false) ≡ some (success, r))
    × (Dev.fifo_in r ≡ [])
    × (Dev.fifo_out r ≡ vbuf 1 ∷ vbuf 2 ∷ vbuf 3 ∷ [])
flush-cancel_example = flush-cancel os hal cfg (λ q. q) laws 4 (dev false false) (omega arith)

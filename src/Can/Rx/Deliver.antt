-- ===== src/Can/Rx/Deliver.antt =====
-- From the filter that was added to its callback: `hpm_can_get_message` on a frame.
use hpm_support.Can.Hal.{Hal}

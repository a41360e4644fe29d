-- ===== src/Pwm.antt =====
-- drivers/pwm/pwm_hpmicro.c, the PWM driver, for both generations of the unit.
pub mod Types
pub mod V1
pub mod V2
mod Tests

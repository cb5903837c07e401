-- ===== src/Util.antt =====
-- pkg/util: the fixed-size values that the other parts encode.
pub mod Values
pub mod Fixed8

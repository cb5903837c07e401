-- ===== src/Io.antt =====
-- pkg/io: the binary reader and writer through which every structure of the system is stored and
-- sent. `Reader` and `Writer` hold their operations, `Codec` the laws by which decoders and
-- encoders are composed, `Exact` how decoders of a fixed number of bytes are, `RoundTrip` and `Size` what holds of the operations themselves.
pub mod Error
pub mod Reader
pub mod Writer
pub mod Codec
pub mod RoundTrip
pub mod Exact
pub mod Size

-- ===== src/Config.antt =====
-- src/config.c: the configuration files. The YAML parser is a library: a file is the sequence of the
-- events that it gives.
pub mod Yaml
pub mod SerialPort
pub mod Rc
pub mod Cameras
pub mod Tests

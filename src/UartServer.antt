-- ===== src/UartServer.antt =====
-- src/uart_server.c: the server that shares the serial port with TCP clients. One module for each
-- of its parts.
pub mod Port
pub mod State
pub mod Clients
pub mod Command
pub mod Loop
pub mod Text
pub mod Startup

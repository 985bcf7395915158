-- ===== src/KeyboardUart.antt =====
-- The UART of firmware/src/keyboard_uart.c.
pub mod Parser
pub mod Ring
pub mod Transmit
pub mod Port

-- ===== src/Lib.antt =====
-- OpenController firmware: the wireless module that sits beside a keyboard's host MCU. It takes
-- commands and key reports over a UART, sends the reports to a dongle by 2.4 GHz radio, and
-- hands LED and status frames back, waking the host first where the board has a wake line.
-- Power saving is a protocol of its own between host and module.
--
-- KeyboardUart/Parser is the frame parser of firmware/src/keyboard_uart.c (`rx_buf`, `rx_len`,
-- `rx_expected`; `checksum` to `feed_byte`). KeyboardUart/Ring is what feeds it: the ring
-- between `UART1_IRQHandler` and `KeyboardUart_Poll`. What the parser recognises leaves as a
-- list of effects: the answer 61 0D 0A, a call of `frame_cb`, or a host ACK.
-- KeyboardUart/Transmit is the sending of bytes, `uart_send_byte` and what is built on it, over
-- the FIFO's and the clock's readings.
-- KeyboardUart/Port is what the module itself has to say to the host:
-- `KeyboardUart_SendStatus`, `SendBattery` and `SendLed`, handed to host wake or to the UART,
-- and `KeyboardUart_Service` with the CHWAKE pin.
-- RfTask is firmware/src/rf_task.c, the radio link with the dongle. RfTask/Link is the whole of
-- its state and its helpers, RfTask/Link/Callback the interrupts (`RF_2G4StatusCallBack`,
-- `TMR0_IRQHandler`), RfTask/Link/Handlers the events (`RF_ProcessEvent`, `rf_pair_broadcast`,
-- `rf_enter_connected`, `rf_do_response_tx`, `RF_ConnectedTick`), RfTask/Link/Calls what the
-- main loop calls (`RF_TaskInit`, `RF_Select2G4`, `RF_EnterPairing`, `RF_Disconnect` and those
-- around them), and RfTask/Link/Resting the resting policy (`rest_cancel` to
-- `rest_promote_to_normal`). RfTask/Link/Histories brings them into one step; the modules
-- beside it are its theorems. What the link asks of TMOS is a request for each event, which
-- TMOS may serve at any time; what it does to the radio and the host is a state of the radio
-- and a list of calls.
-- RfTask/Reports is the part of it that carries key reports: the ring `hid_fifo`,
-- `RF_QueueHIDReport`, the frame of `rf_do_response_tx` and the control bit that retires what
-- the dongle has confirmed; RfTask/Link/Delivery shows that the link uses it as it is there.
-- RfTask/Hop is its timed hop: the arithmetic on the RTC32K counter, `hop_servo` and the
-- critical section of `RF_ConnectedTick`.
-- RfTask/Bond is the bond record, in memory and in the DataFlash (`rf_bond_checksum` to
-- `rf_clear_bond_flash`), over RfTask/DataFlash, the vendor's EEPROM calls as a parameter with
-- what they are documented to do. The dongle itself is not modelled. RfTask/Identity is
-- `rf_init_keyboard_identity`, over what the vendor's `GetMACAddress` returns.
-- HostWake is firmware/src/host_wake.c, the guarded and acknowledged sending of frames to a
-- host that sleeps.
-- SleepProtocol is firmware/src/sleep_protocol.c, the reducer that main.c runs first on every
-- accepted frame, and the tick arithmetic for the hold-off.
-- PowerSleep is the decision of firmware/src/power_sleep.c: the requests, the hold-off, the
-- window and the gates of TMOS's idle callback; what it reads of registers and of the other
-- parts is arguments, and PowerSleep/Gate puts the link's answers in.
-- MainLoop is the dispatch of firmware/src/main.c, `handle_uart_frame`, and the two services
-- that leave the loop, `OpenBoot_Service` and `Power_Service`; the calls they make of other
-- parts are a list, what the radio answers and the clock and UART readings are arguments.
-- RtcClock is firmware/src/rtc_clock.c, the 32-bit tick clock that the UART's and the services'
-- bounds are measured on; the raw counter values are arguments.
-- DiagFrame is firmware/src/diag_frame.c, the format of the diagnostic dump, and DiagDump is
-- firmware/src/diag_dump.c, with the counters of power_sleep.c and main.c and their freeze
-- behind a reset by the watchdog. `count_low_power` is what the idle callback counts, on each of
-- its branches; DiagDump/Agreement holds it against PowerSleep's `low_power`.
-- System puts the dispatch, the link, the host port and deep sleep into one state: what each
-- call of one part does to the others, the passages of `Main_Circulation`,
-- `heartbeat_follow_rf_state`, the test for idling, and the idle callback with its gates read
-- off the parts. Its events come in any order, which includes the loop's. System/Linked, Calls
-- and Simulation lead the link back to RfTask/Link/Histories; System/Effects, Heeding and
-- Renewal follow the host's words on sleep; System/Offers, Holding and Leds follow an LED byte;
-- System/Orderly, Standing and Idling are about the loop when nothing is left to do.
-- Prelude has the lists, words and tests that these share.
--
-- A `uint8_t`, `uint16_t` or `uint32_t` is a native number, and every operation that can wrap
-- has its `% 2 ^ w` written out. A flag is a Bool. A C struct is a record and its functions
-- take and return it, since no two parts of the firmware hold the same one; a write through an
-- `out` pointer is a list that is returned. An array keeps its length, and reads and writes go
-- through an index. Interrupts are steps of their own between the steps of the main loop.
--
-- Loops are structural recursion over a list or over the rounds that C's own loop counts. Three
-- are on fuel: `process`, the loop of `process_rx_buf`, with `rx_len` rounds, since each round
-- takes at least one byte out of the buffer; `drain`, the loop of `KeyboardUart_Poll`, with
-- four statements for each byte in the ring and three more, since a round takes one byte out,
-- empties the ring for a hole, or ends; and `turn_down`, the loop of `rtc_add_32k`, with two
-- rounds, since a 32-bit sum is less than two turns of the counter.
--
-- Interrupts come between two functions of the radio link, not inside one; in the UART's ring
-- they come between two statements. The link's start is taken with the scheduler's first pass,
-- which serves RF_EVT_START before the main loop makes any call. What the code does against an
-- interrupt inside a function is left out therefore: the second look at `pending_led` behind
-- the sending of an LED frame, and that at `response_pending` behind a hop.
--
-- Not modelled: register access and interrupt set-up, the counters of rf_task.c that only
-- diagnostics read (the dump takes any values for them) and the bench variants that build
-- options select, among them a build without the factory address (`KBD_FACTORY_MAC`), the
-- receive path without `KBD_IDLE_WFI`, the WFE sequence and the stage markers of main.c,
-- start-up code, and the vendor's radio library, scheduler and bootloader, which are not in the
-- repository. System takes parsed frames and what the receiver reports as inputs; the ring and
-- the parser stand on their own, and so does the sending of the bytes.
pub mod Prelude
pub mod KeyboardUart
pub mod RfTask
pub mod HostWake
pub mod SleepProtocol
pub mod PowerSleep
pub mod MainLoop
pub mod RtcClock
pub mod DiagFrame
pub mod DiagDump
pub mod System

-- ===== src/Lib.antt =====
-- Models and proofs for the FreeRTOS HAL test system.
--
-- The repository holds one test program per board. Each main function initialises the HAL and starts
-- tasks; the tasks and interrupt handlers drive timers, captures, buses and buffers through the HAL,
-- a separate project. Modelled are the programs that keep state or compute something themselves.
--
-- * Main (src/vf610/test.c): main and initGPIO, which start the parts below that run on the VF610.
--   Main/Gpio is initGPIO, Main/Parts the calls that start a part, Main/Order which parts main starts
--   and with which pointers.
-- * Ppm (src/vf610/ppm.c): the pulse-position transmitter, a state machine stepped by a one-shot
--   timer and a pausing task. Ppm.antt has the state and the functions, ppm_startTransfer as
--   ppm_start_transfer and so on; Ppm/Frame the waveform as a receiver sees it, Ppm/Invariant what
--   holds between expiries, Ppm/Waveform a whole frame, Ppm/Pause the pause, Ppm/Init ppm_init.
-- * Rc (src/vf610/remote_control.c): the receiver of the remote control. Rc.antt has the channels and
--   the handlers, Rc/Capture the measured widths, Rc/Freshness how long a width stays valid, Rc/Setup
--   how rc_setup hands out channels.
-- * ClockTree (src/am57xx/printClockTree.c): the dump of the clock registers. ClockTree/Registers is
--   the table, ClockTree/Printing what is printed and accessed.
-- * Rproc (src/am57xx/rproctest.c): the resource table for the host. Rproc/Regions has the address
--   regions, Rproc/Offsets what a reader finds at the offsets, Rproc/Mapping the announced address
--   map, and that the clock dump of the same board reaches its registers through it. Rproc/Imx6 is
--   the smaller table of src/imx6/rproctest.c.
-- * Ramp (ledTask of src/vf610/test.c, pwmTask of src/vf610/pwmtest.c, irqhandle of
--   src/vf610/timer.c): a value that runs up and down, each in a child module of its own.
-- * Rctest (src/vf610/rctest.c): the test of the receiver, over Rc. Rctest/Start is rcInit,
--   Rctest/Line the line of the task when capture units and the timer interrupt.
-- * Pwmtest (src/vf610/pwmtest.c): pwmTask and the interrupt that measures its pulses.
--   Pwmtest/Interleaving is what holds in every order of their steps, Pwmtest/Edges what the interrupt
--   accepts.
-- * Speedtest (src/vf610/speedtest.c): the measurement of the time from an interrupt to a task.
--   Speedtest.antt has its state machine, Speedtest/Progress how far it gets.
-- * Tpstest (src/vf610/tpstest.c): the measurement of eight voltages. Tpstest/Voltages is what it
--   prints.
-- * Can (src/c28x/can_test.c): the errors that the CAN interrupt reports and the task prints.
--   Can/Printing has the printed lines, Can/Polling the interplay of interrupt and task, Can/Echo the
--   messages that are sent back. Can/Modes has the other modes of the task: Can/Link is a sending and a
--   receiving board on one bus, in single steps (Turns) and as a whole (Delivery), Can/Toggle the mode
--   that toggles a pin.
-- * Flexcan (src/kv4x/flexcan.c and src/s32k/flexcan.c): the task that sends a message and expects it
--   back, and the task that answers. Flexcan/Bus is the driver on a bus that sends everything back,
--   Flexcan/Echo the first task on it, Flexcan/Answer the second. Flexcan/Dcan is can_task of
--   src/am57xx/dcan.c with the same driver.
-- * Enet (src/imx6/enettest.c): the Ethernet test with two controllers. Enet/Board is a board whose
--   drivers work, Enet/Run the task on it and its start.
-- * Phytest (src/imx6/phytest.c): the MDIO interface of the phys. Phytest/Interface is a task that uses
--   it, with the bus and the interrupt, Phytest/Reads and Phytest/Stale what its reads return,
--   Phytest/Clock the divider of its clock, Phytest/Negotiation the task that tests the phys.
-- * Boardtest (boardtest.c of src/stm32 and src/am57xx): pins that toggle and buttons.
--   Boardtest/Tables has the pins, Boardtest/Works the driver, Boardtest/Stm32 and Boardtest/Am57xx
--   the initialisation, Boardtest/Toggles the whole test of the STM32, Boardtest/Buttons the handler.
-- * Spi (src/s32k/spitest.c): the reset command for an SD card. Spi/Crc has crc7, Spi/Frame the
--   command as a card reads it, Spi/Response what sendCommand takes for a response, Spi/Bytes the
--   transfer of single bytes, Spi/Start spitest_init and spiTask over it.
-- * LinuxClient (src/vf610/linux_client.c): the client that passes messages to callbacks.
--   LinuxClient/Start has lc_init, LinuxClient/Dispatch which callback a message reaches.
-- * Capture (capture_callback of src/stm32/timertest.c and src/am57xx/timertest.c): the time between
--   two captures; Capture/Gaps relates it to the time that passed.
-- * Timertest (timertest.c of src/stm32 and src/am57xx): the start of the timer tests.
--   Timertest/Callbacks has the overflow callbacks that it sets, Timertest/Boards what it comes to on
--   each board.
-- * Rgb (src/s32k/timer.c and src/kv4x/timer.c): the light that goes through seven colours, over an
--   abstract float. Rgb/Cycle is a step towards the next colour, Rgb/Colours all colours, Rgb/Periods
--   the times that the timer is asked for, Rgb/Dark the pins, Rgb/Pwm the variant with PWM.
-- * Sd (src/stm32/sdtest.c): the test of an SD card. Sd/Card is the card that the test is run
--   against, Sd/Transfer the read-write test, Sd/Start the start and the whole task.
-- * Spitest (spitest.c of src/vf610 and src/am57xx): the registers that are read over SPI.
--   Spitest/Sensors is the VF610 with sensors, Spitest/Overrun the memset on the AM57xx.
-- * BufferTest (src/vf610/buffertest.c): the tests that pass texts and messages through a buffer.
--   BufferTest/Fifo is the queue that they rely on, BufferTest/Pair the writer and the reader of the
--   messages in any order of their rounds, BufferTest/Text the texts. BufferTest/Irq is the task that
--   exchanges texts with the other core, BufferTest/Answers its rounds against a core that answers.
--   BufferTest/Start is the set-up of the buffers with the task that only sends, BufferTest/Safe which
--   tasks the set-up creates.
--
-- Numbers are natural numbers with the wrap-around of their C type written out. A call of the HAL or
-- of FreeRTOS is a parameter: its answer is an argument, or a driver that the task is run against,
-- and where the order of calls matters they are recorded in a log. A failed CONFIG_ASSERT, which
-- stops the program, and an access outside an array are the value none, in Speedtest and Rctest
-- outcomes of their own, in Main, BufferTest/Start, Spi/Start, Can/Modes, Sd, Flexcan, Enet, Boardtest, Spitest,
-- Timertest, Tpstest and Phytest/Negotiation those of Prelude/Task. Interrupts and tasks are modelled
-- one handler or round at a time, each running to its end, in Pwmtest one access of a shared variable
-- and in Phytest/Interface one call at a time; where a theorem speaks of a sequence, the sequence is
-- a list of events, a number of rounds or expiries, or a relation that allows every order. Loops
-- recur on lists or on counted rounds; only three are bounded: those of print_can_error, by 64 turns,
-- which the width of their masks makes enough, and the waits for the SD card and for a phy, by any
-- number of turns above the number of times that it is not ready.
--
-- Not modelled: the mains of the other boards and the tasks that only call the HAL and print, the
-- FreeRTOS port in src/vf610/port.c and the register header src/imx6/fec.h, which belong to other
-- projects, and floating-point numbers except as the abstract values of Rgb and Tpstest.
pub mod Prelude
pub mod Main
pub mod Ppm
pub mod Rc
pub mod ClockTree
pub mod Rproc
pub mod Ramp
pub mod Pwmtest
pub mod Rctest
pub mod Rgb
pub mod Sd
pub mod Speedtest
pub mod Tpstest
pub mod BufferTest
pub mod Can
pub mod Flexcan
pub mod Enet
pub mod Phytest
pub mod Boardtest
pub mod Capture
pub mod Timertest
pub mod LinuxClient
pub mod Spi
pub mod Spitest

-- ===== src/Lib.antt =====
-- The firmware of the AN75XX network processor: the packet-path bookkeeping of the RISC-V harts.
--
-- Each hart of the NPU runs one polling loop in C with no operating system. The harts share tables in
-- SRAM: rings of free packet buffer ids, the tokens of frames that the WiFi chip holds, reorder windows,
-- and the descriptor rings towards the host. The model takes one C function to one definition on an
-- explicit state; a step relation interleaves the calls of the harts, each call as one step, where a
-- property is about histories. Numbers are native and wrap where the C types wrap (`% 2 ^ w`); arrays
-- are lists, and a read out of range gives a default that the proofs rule out.
--
-- Parts and files:
--   Util       npu_util.c: memset, memcpy, strlen, htons, the integer square root.
--   IdRing     npu_wifi_bufid.c: one ring of free ids (rx buffer ids or tx tokens): single and batched
--              allocation and return.
--   BufId      npu_wifi_bufid.c: the pools over those rings, their init and reset, the stack of jumbo
--              tokens.
--   Sram       npu_sram.c: the allocator that hands out the SRAM by address type, with the size
--              tables of each SoC and WiFi chip as a Build.
--   Ba         npu_wifi_ba.c: the reorder engine of the kite chips, as linked nodes in a memory: the
--              loops that release held frames, the timeout and the restart of a window.
--   Rx         npu_wifi_rx.c: kite_classify_pn, which finds the place of a frame in the window of its
--              session and sends, holds, frees or drops it, over the entry and the nodes of Ba; the fast
--              path kite_classify_fast, with the choice of pkt_enqueue_bridge.
--   Fwd        npu_wifi_fwd.c: the rings from the WiFi cores to the host core, whole frames and segments,
--              with their statistics.
--   HostAdpt   npu_hostadpt.c: the rings that carry frames on to the ARM host, one frame, a batch with one
--              copy in flight, or a chained frame at a time; HostAdpt.Delivery joins them to Fwd.
--   Dba        npu_dba.c: the bandwidth allocation of the GPON OLT: the T-CONT table, the mail of the host,
--              the upstream reports, the budget of a map, the list by grants, the entries of a map.
--   Plic       npu_plic.c: the interrupt controller: enable and mask words, priorities, the handlers.
--   Printf     npu_printf.c: npu_vsprintf.
--   Console    npu_printf.c: the bytes that the two consoles send, and the parser of typed commands.
--   Timer      npu_timer.c: the timer interrupt with its acknowledge word, ticks and time of day.
--   StaQ       npu_sta_q.c and the inline hooks of npu_internal.h: frames per station in the chip and
--              the drop decision after RFC 8289, which takes the square root of Util.
--   Prelude    comparisons, lists, machine words and bit fields that the parts share.
--
-- Bounds and fuel: the two loops of npu_isqrt take 16 rounds of fuel, since b starts at 2 ^ 30 and loses
-- two bits a round; the proof of termination shows that this is enough for every 32-bit input. The loops of
-- the reorder engine walk linked nodes until a null pointer; their fuel is enough with one round for each
-- node that the session holds, as their theorems show; the window of kite_classify_pn is slid at most as
-- often as frames are held, and twice more. The scan of
-- rxnode_drain takes a turn for each retry and each of the 7 segments that the flags can announce, and one
-- more. npu_vsprintf takes a round for each byte of the format; its digit
-- loops take 10 or 20 rounds, the decimal digits of 32 and 64 bits. dba_rpt_drain has its own limit of 80 rounds.
-- The length of the host's buffers, which differs between the builds, is an argument. The host takes frames
-- between the calls of the NPU, and a DMA copy that is waited for has ended. All other loops are over a count or a list.
--
-- Not modelled: register access and assembler (npu_regs.h, crt0.S), mutex arbitration
-- (each call that takes a mutex is one step) and the other files of the firmware.
pub mod Prelude
pub mod Util
pub mod IdRing
pub mod BufId
pub mod StaQ
pub mod Sram
pub mod Ba
pub mod Timer
pub mod Rx
pub mod Fwd
pub mod HostAdpt
pub mod Dba
pub mod Plic
pub mod Printf
pub mod Console

-- ===== src/Transfer/Receive/Overrun.antt =====
-- `recv` of a packet whose place lies behind the buffer.

-- ===== src/Common/Returns.antt =====
-- The `int` that the routines return: 0, -1 and 1 are the only values.
pub data Status : Type 0 where
  ok minus_one one : Status

-- ===== src/Common/Rc.antt =====
-- The `int` results of the C functions: 0, -1, and -2 where a function has two failures.
pub data Rc : Type 0 where
  ok error conflict : Rc

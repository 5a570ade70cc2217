-- ===== src/Allocator.antt =====
-- What the kernel's other parts ask of `malloc` and `free` (kernel/src/utils/mem.c): some state,
-- a block's address or NULL, and a release. No law is assumed; what a client needs of a block
-- is a hypothesis of its theorem.
use alephos.Prelude.{ℕ, Option}

pub record Allocator : Type 1 where
  pub State : Type 0
  pub malloc : ℕ → State → Option ℕ × State
  pub free : ℕ → State → State

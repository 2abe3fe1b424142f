-- ===== src/Base/Contexts.antt =====
-- Go's context.Context as far as the program reads it: what `ctx.Err()` returns at each of the
-- checks that one call makes, in their order. A nil context is none.
use Prim.Native.Nat.{ℕ}
use mathlib.Core.Path.{◌≡◌}
use mathlib.Core.Option.{Option, none}

pub data CtxError : Type 0 where
  canceled deadline_exceeded : CtxError

pub record Context : Type 0 where
  pub err_at : ℕ → Option CtxError

-- A context that is not canceled while the call runs.
abbrev pub background : Context
background = record { err_at = λ n. none }

abbrev pub IsLive : Context → Type 0
IsLive c = (n : ℕ) → c.err_at n ≡ none

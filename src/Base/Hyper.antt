-- ===== src/Base/Hyper.antt =====
-- The settings of the third-party crate `hyper` for a connection, and what it makes of them.
use Prim.Native.Nat.{ℕ}
use mathlib.Core.Path.{◌≡◌}
use mathlib.Core.Bool.{Bool, true, false}
use mathlib.Core.Option.{Option, some}

-- `http1::Builder`: the settings that the servers make, in seconds, and whether they set a timer.
pub record ConnectionBuilder : Type 0 where
  pub keep_alive : Bool
  pub header_read_timeout : Option ℕ
  pub has_timer : Bool

-- `serve_connection` panics with these settings.
pub record Hyper : Type 0 where
  pub panics : ConnectionBuilder → Bool

-- The documentation: a builder with a header timeout panics without a timer, and only then.
pub record HyperLaws (hyper : Hyper) : Type 0 where
  pub timer_missing :
      (builder : ConnectionBuilder) (timeout : ℕ)
      → builder.header_read_timeout ≡ some timeout
      → builder.has_timer ≡ false
      → hyper.panics builder ≡ true
  pub timer_set :
      (builder : ConnectionBuilder) → builder.has_timer ≡ true → hyper.panics builder ≡ false

-- ===== src/Base/Prometheus.antt =====
-- The third-party crate `prometheus`, as far as the gateways count with it: a vector of counters
-- has one for each list of label values, and starts each at zero.
pub mod Sample
use Prim.Native.Nat.{ℕ, suc}
use Prim.Native.String.{String}
use mathlib.Core.List.{List}
use mathlib.Core.Logic.{◌≢◌}
use mathlib.Core.Path.{◌≡◌}

pub record CounterVec (V : Type 0) : Type 0 where
  -- `with_label_values(labels).inc()`, and what a counter shows.
  pub inc : List String → V → V
  pub value : List String → V → ℕ

pub record CounterVecLaws {V : Type 0} (counters : CounterVec V) : Type 0 where
  pub own :
      (labels : List String) (v : V)
      → counters.value labels (counters.inc labels v) ≡ suc (counters.value labels v)
  pub others :
      (labels asked : List String) (v : V)
      → labels ≢ asked
      → counters.value asked (counters.inc labels v) ≡ counters.value asked v

-- `with_label_values(labels).observe(x)` of a vector of histograms, with observations of type `F`.
pub record HistogramVec (H F : Type 0) : Type 0 where
  pub observe : List String → F → H → H
